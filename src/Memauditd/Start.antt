-- ===== src/Memauditd/Start.antt =====
-- What `runCmd` starts an agent with.
use memaudit.Base.{
  ◌≡◌, ◌≢◌, inl, inr, refl, ap, true, [], Option, none, some, Option-cases, Bytes, bytes_eq,
  bytes_eq_refl, bytes_eq_sound, codes, Result, ok, err, Result-cases, Bool-cases, arith,
}
use memaudit.Config.{AgentConfig, ConfigError, load}
use memaudit.Spool.Disk.{Disk}
use memaudit.Spool.State.{Spool, SpoolError}
use memaudit.Spool.Ops.{open_spool}
use memaudit.Pprof.{validate_addr, listen}
use memaudit.Memauditd.{
  StartCalls, StartError, PushTarget, StartedAgent, spool_options, read_token, target_of,
  push_target, kubelet_of, bound, wired, wired_on, on_host, configured, start_up,
}

-- What an agent is started with.
pub record IsSafe (calls : StartCalls) (a : StartedAgent) : Type 0 where
  -- It pushes to an endpoint exactly in the push mode, and never without a URL.
  pub pushes :
      a.config.ship.mode ≡ codes "push"
      → (t : PushTarget) × (a.target ≡ some t) × (t.url ≡ a.config.ship.url) × (t.url ≢ [])
  pub bundles : a.config.ship.mode ≢ codes "push" → a.target ≡ none
  -- The debug endpoint is bound to this machine only.
  pub local : a.config.debug.pprof_addr ≢ [] → validate_addr a.config.debug.pprof_addr ≡ true
  -- The spool was opened with the configured site and bound.
  pub opened :
      (d : Disk) × (open_spool (spool_options a.config a.host) calls.spool_calls calls.disk
        ≡ (d, ok a.spool))

module _ (calls : StartCalls) where
  push_target-push :
      (cfg : AgentConfig) (o : Option PushTarget)
      → push_target calls cfg ≡ ok o
      → cfg.ship.mode ≡ codes "push"
      → (t : PushTarget) × (o ≡ some t) × (t.url ≡ cfg.ship.url) × (t.url ≢ [])
  unfolding push_target
  push_target-push cfg o h mode = elim (Bool-cases (bytes_eq cfg.ship.url [])) [
    | inl e ↦ absurd (ground (arith, e, mode, bytes_eq_refl (codes "push"), h))
    | inr e ↦ elim (Option-cases (read_token calls.read_file cfg.ship.token_file)) [
      | inl f ↦ absurd (ground (arith, e, f, mode, h))
      | inr (token, f) ↦ (
        target_of cfg.ship.url token,
        ground (arith, e, f, mode, h),
        refl,
        λ empty. absurd (ground (arith, e, empty)),
      )
    ]
  ]

  push_target-bundle :
      (cfg : AgentConfig) (o : Option PushTarget)
      → push_target calls cfg ≡ ok o
      → cfg.ship.mode ≢ codes "push"
      → o ≡ none
  unfolding push_target
  push_target-bundle cfg o h mode = elim (Bool-cases (bytes_eq cfg.ship.mode (codes "push"))) [
    | inl e ↦ absurd (mode (bytes_eq_sound cfg.ship.mode (codes "push") e))
    | inr e ↦ ground (arith, e, h)
  ]

  bound-local :
      (cfg : AgentConfig) (u : Unit {0})
      → bound calls cfg ≡ ok u
      → cfg.debug.pprof_addr ≢ []
      → validate_addr cfg.debug.pprof_addr ≡ true
  unfolding bound listen
  bound-local cfg u h asked = elim (Bool-cases (bytes_eq cfg.debug.pprof_addr [])) [
    | inl e ↦ absurd (asked (bytes_eq_sound cfg.debug.pprof_addr [] e))
    | inr e ↦ elim (Bool-cases (validate_addr cfg.debug.pprof_addr)) [
      | inl f ↦ f
      | inr f ↦ absurd (ground (arith, e, f, h))
    ]
  ]

  wired-IsSafe :
      (cfg : AgentConfig) (host : Bytes) (d : Disk) (spool : Spool) (a : StartedAgent)
      → open_spool (spool_options cfg host) calls.spool_calls calls.disk ≡ (d, ok spool)
      → wired calls cfg host spool ≡ ok a
      → IsSafe calls a
  wired-IsSafe cfg host d spool a opened h = elim (Result-cases (push_target calls cfg)) [
    | inr (x, e) ↦ absurd (ground (arith, e, h))
    | inl (target, e) ↦ elim (Result-cases (kubelet_of calls cfg)) [
      | inr (x, f) ↦ absurd (ground (arith, e, f, h))
      | inl (kubelet, f) ↦ elim (Result-cases (bound calls cfg)) [
        | inr (x, g) ↦ absurd (ground (arith, e, f, g, h))
        | inl (u, g) ↦
            let same : a ≡ (record {
              config = cfg;
              host = host;
              spool = spool;
              target = target;
              kubelet = kubelet;
            }) =
              ground (arith, e, f, g, h) in
            rw same (record {
              pushes = push_target-push cfg target e;
              bundles = push_target-bundle cfg target e;
              local = bound-local cfg u g;
              opened = (d, opened);
            })
      ]
    ]
  ]

  wired_on-IsSafe :
      (cfg : AgentConfig) (host : Bytes) (r : Disk × Result SpoolError Spool) (d : Disk)
      (a : StartedAgent)
      → open_spool (spool_options cfg host) calls.spool_calls calls.disk ≡ r
      → wired_on calls cfg host r ≡ (d, ok a)
      → IsSafe calls a
  wired_on-IsSafe cfg host (d', err e) d a opened h = absurd (ground (arith, h))
  wired_on-IsSafe cfg host (d', ok spool) d a opened h =
      wired-IsSafe cfg host d' spool a opened
        (ap (λ (r : Disk × Result StartError StartedAgent). r.1) h)

  on_host-IsSafe :
      (cfg : AgentConfig) (hostname : Option Bytes) (d : Disk) (a : StartedAgent)
      → on_host calls cfg hostname ≡ (d, ok a)
      → IsSafe calls a
  on_host-IsSafe cfg none d a h = absurd (ground (arith, h))
  on_host-IsSafe cfg (some host) d a h =
      wired_on-IsSafe cfg host (open_spool (spool_options cfg host) calls.spool_calls calls.disk) d
        a refl h

  configured-IsSafe :
      (r : Result ConfigError AgentConfig) (d : Disk) (a : StartedAgent)
      → configured calls r ≡ (d, ok a)
      → IsSafe calls a
  configured-IsSafe (err e) d a h = absurd (ground (arith, h))
  configured-IsSafe (ok cfg) d a h = on_host-IsSafe cfg calls.hostname d a h

  pub start_up-IsSafe :
      (path : Bytes) (d : Disk) (a : StartedAgent)
      → start_up calls path ≡ (d, ok a)
      → IsSafe calls a
  unfolding start_up
  start_up-IsSafe path d a h = configured-IsSafe (load calls.unmarshal (calls.read_file path)) d a h
