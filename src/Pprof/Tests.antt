-- ===== src/Pprof/Tests.antt =====
-- Tests of internal/pprofserver, and its theorem at a concrete input.
use memaudit.Base.{◌≡◌, ◌↔◌, refl, true, false, ◌∷◌, ◌++◌, Bytes, codes}
use memaudit.Pprof.{validate_addr, split_host_port, cut_last, bracketed_host}
use memaudit.Pprof.Loopback.{IsHostText, IsLoopback, IsPortText, validate_addr_iff}

addresses :
    ((validate_addr (codes "127.0.0.1:6060") ≡ true) × (validate_addr (codes "[::1]:6060") ≡ true))
    × ((validate_addr (codes ":6060") ≡ false) × (validate_addr (codes "0.0.0.0:6060") ≡ false))
    × ((validate_addr (codes "localhost:") ≡ false) × (validate_addr (codes "::1:6060") ≡ false))
unfolding validate_addr split_host_port cut_last bracketed_host
addresses = ((refl, refl), (refl, refl), (refl, refl))

validate_addr_iff_example : (validate_addr (codes "localhost:6060") ≡ true) ↔ (
    (before : Bytes) × (port : Bytes) × (host : Bytes) × (codes "localhost:6060"
      ≡ before ++ b':' ∷ port)
    × IsHostText before host
    × IsLoopback host
    × IsPortText port)
validate_addr_iff_example = validate_addr_iff (codes "localhost:6060")
