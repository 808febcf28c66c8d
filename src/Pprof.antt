-- ===== src/Pprof.antt =====
-- internal/pprofserver/pprofserver.go: `ValidateAddr` and `Listen`, with `net.SplitHostPort`. Its errors
-- are not told apart; the listener and `Serve` are left out.
pub mod Loopback
pub mod Tests
use memaudit.Base.{
  ℕ, Bool, true, false, not, ◌&&◌, ◌||◌, ◌==◌, List, [], ◌∷◌, any, Option, none, some, Bytes,
  bytes_eq, codes, if◌then◌else◌,
}

-- strings.Contains of one byte.
abbrev pub contains : ℕ → Bytes → Bool
contains c s = any (λ (d : ℕ). d == c) s

abbrev pub with_front : ℕ → Option (Bytes × Bytes) → Option (Bytes × Bytes)
with_front c none = none
with_front c (some (before, behind)) = some (c ∷ before, behind)

abbrev pub or_here : Bool → Bytes → Option (Bytes × Bytes) → Option (Bytes × Bytes)
or_here is_sep s (some later) = some later
or_here true s none = some ([], s)
or_here false s none = none

-- The texts before and behind the last byte of a kind.
unfoldable pub cut_last : ℕ → Bytes → Option (Bytes × Bytes)
cut_last sep [] = none
cut_last sep (c ∷ s) = or_here (c == sep) s (with_front c (cut_last sep s))

-- The host before the last colon, without brackets: no colon and no bracket is in it.
abbrev pub plain_host : Bytes → Option Bytes
plain_host before =
    if contains b':' before || (contains b'[' before || contains b']' before)
    then none
    else some before

abbrev pub onto_host : ℕ → Option Bytes → Option Bytes
onto_host c none = none
onto_host c (some host) = some (c ∷ host)

-- The host behind an opening bracket: the first closing one is at the end.
unfoldable pub bracketed_host : Bytes → Option Bytes
bracketed_host [] = none
bracketed_host (c ∷ []) = if c == b']' then some [] else none
bracketed_host (c ∷ d ∷ s) =
    let rest = onto_host c (bracketed_host (d ∷ s)) in
    if (c == b'[') || (c == b']') then none else rest

abbrev pub host_before : Bytes → Option Bytes
host_before [] = plain_host []
host_before (c ∷ before) = if c == b'[' then bracketed_host before else plain_host (c ∷ before)

abbrev pub with_port : Bytes → Option Bytes → Option (Bytes × Bytes)
with_port port none = none
with_port port (some host) =
    if contains b'[' port || contains b']' port then none else some (host, port)

abbrev pub split_at_colon : Option (Bytes × Bytes) → Option (Bytes × Bytes)
split_at_colon none = none
split_at_colon (some (before, port)) = with_port port (host_before before)

unfoldable pub split_host_port : Bytes → Option (Bytes × Bytes)
split_host_port s = split_at_colon (cut_last b':' s)

abbrev pub is_loopback : Bytes → Bool
is_loopback host =
    bytes_eq host (codes "127.0.0.1")
    || (bytes_eq host (codes "::1") || bytes_eq host (codes "localhost"))

abbrev pub is_bindable : Option (Bytes × Bytes) → Bool
is_bindable none = false
is_bindable (some (host, port)) = if bytes_eq port [] then false else is_loopback host

-- Whether the address is accepted.
unfoldable pub validate_addr : Bytes → Bool
validate_addr addr = is_bindable (split_host_port addr)

-- `Listen`: `listen_ok` says whether `net.Listen` succeeds.
unfoldable pub listen : Bool → Bytes → Bool
listen listen_ok addr = if validate_addr addr then listen_ok else false
