-- ===== src/Lib.antt =====
-- memaudit: a verification library for the memaudit host agent.
--
-- memauditd samples the memory of a host. Collectors read /proc, /sys and tools and give records
-- (pkg/model/records.go); the agent wraps each record in an envelope and writes it to the spool, a
-- directory with one active JSONL file and compressed segments; the shipper sends the segments to an
-- endpoint and removes them. memaudit-synth is the program that checks the DAMON histogram against a
-- mapping of a known size.
--
-- - Model: the records that the other parts exchange (pkg/model/records.go).
-- - Damon: the client of the kernel's DAMON interface (pkg/damon). Detect is `DetectAt` and
--   `kernelAtLeast`, Session is `start` and `Stop`, Region is `Snapshot`, Iomem is `parseIomemReader`. The kernel's acceptance of a
--   write is an argument, and a session is judged by the sequence of its writes.
-- - Config: internal/config/config.go, the records, the defaults and `Load`.
-- - Collector: internal/collector. Histogram is `bucketRegions` (damon.go); Cgroup is the walk over the
--   cgroup tree (cgroup.go) with `filepath.Match` and the reading of one cgroup as arguments, and
--   Cgroup.Read is that reading, with the pressure file and the pod; Stat is the reading of memory.stat
--   and of the files of one number (cgroup.go, numa.go, hugepages.go); Scan and Numa are numa.go, with the
--   setters of a record as a set of keys and what they store; Hugepages, Gpu, Meminfo, Pressure (psi.go) and Vllm
--   are the collectors of these names; Vmstat is `parseVmstat` (vmstat.go). What `procfs`, the parser of
--   the exposition format and `ParseFloat` give is an argument; floating-point numbers are a parameter.
-- - K8s: internal/k8s. Paths is `PodUID` and `ContainerID` with the two regular expressions written as
--   what they match, Kubelet is the client with its cache (`LookupPod`, `refreshIfStale`, `fetchPods`,
--   `filterLabels`). The cgroup collector meets it as a function of the UID, as the interface `Client` is.
-- - Spool: internal/spool/spool.go. Disk is the directory (its files by name, a rename
--   and a removal), Listing is what `Segments` makes of its entries, State the fields of `Spool`, Cap is
--   `enforceCap` and `writeWarning`, Ops is `Open`, `Write`, `rotate`, `Close` and `Segments`. Every
--   system call's answer is an argument (`OpenCalls`, `RotateCalls`, `WriteCalls`, `Round`). The JSON
--   encoder, the zstd encoder and the ULID of a segment are parameters; what is used of them, that the
--   decoder undoes the encoder and that a later ULID is greater, is a hypothesis where it is needed.
-- - Ship: internal/ship/ship.go: `New`, `Run`, `shipWithRetry`, `ship` and `batchID`. The answers of the
--   file calls, the HTTP client and the timer are in an `Attempt`; what happens outside is a list of
--   events.
-- - Agent: internal/agent. Sources is `buildSources` and the envelopes (sources.go), with the record's
--   type and its encoder as arguments; DamonSource is `damonSource`; Loop has the goroutines of `Run` as a
--   step relation over the models of the spool and the shipper, in any order, one step for each `Write`,
--   which the lock makes whole, and one for each attempt of the shipper; Shutdown is the closing of the spool and the final drain.
-- - Pprof: internal/pprofserver/pprofserver.go: `ValidateAddr` and `Listen`.
-- - Memauditd: cmd/memauditd/main.go: `runCmd` from the configuration to the exit status, over the models
--   of the configuration, the spool, the kubelet client, the debug endpoint and the agent.
-- - Selftest: internal/selftest/selftest.go: `Run`, `Failed` and `String`, with what the checks find as
--   an argument.
-- - Synth: cmd/memaudit-synth: sizes (size.go), the accepted band (band.go), the preflight
--   (preflight.go) and the run with its clean-up and verdict (main.go).
-- - Base: Booleans, results, machine words, lists, texts, decimal numbers, sorting and maps for all parts.
--
-- Loops without a bound take the list of answers that they meet: the rounds of `enforceCap`, the
-- attempts for a segment, the passes of `Run`. `enforce_cap` needs one more round than there are
-- segments, since each round that goes on removes one or finds that it is gone; `ship_with_retry` and
-- `run` have an outcome of their own, `undecided`, for a list that ends too early.
--
-- Texts are lists of bytes, and the functions on spaces are those of ASCII texts. uint64 arithmetic
-- wraps around, and int64 durations are kept modulo 2^64. Maps are association lists or functions; where
-- the code visits a map, the model visits it in one order. Not modelled: log lines, the content of JSON,
-- the HTTP headers but for the batch id and the token of the kubelet, real clocks, timers and jitter, the
-- flags and the printing of the commands, `vllm-dump`, and segments that appear while the shipper's `Run`
-- is at work, but for the loop of the agent.
mod Base
pub mod Model
pub mod Config
pub mod Damon
pub mod Collector
pub mod Spool
pub mod Ship
pub mod Selftest
pub mod Agent
pub mod K8s
pub mod Pprof
pub mod Memauditd
pub mod Synth
