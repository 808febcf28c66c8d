-- ===== src/Pprof/Loopback.antt =====
-- Which addresses the debug endpoint is bound to.
use memaudit.Base.{
  ℕ, ◌≡◌, ◌≢◌, ◌↔◌, ◌⊎◌, inl, inr, refl, sym, ap, ◌∙◌, Bool, true, false, ◌||◌, ◌==◌, ==_iff, [],
  ◌∷◌, ◌++◌, Option, none, some, Option-cases, Bytes, bytes_eq, bytes_eq_sound, codes, Bool-cases,
  arith, if◌then◌else◌,
}
use memaudit.Pprof.{
  contains, cut_last, plain_host, bracketed_host, host_before, with_port, split_host_port,
  is_loopback, validate_addr,
}

cut_last_absent : (c : ℕ) (s : Bytes) → contains c s ≡ false → cut_last c s ≡ none
unfolding cut_last
cut_last_absent c [] h = refl
cut_last_absent c (d ∷ s) h = ground (arith, cut_last_absent c s)

cut_last-append :
    (c : ℕ) (a b : Bytes) → contains c b ≡ false → cut_last c (a ++ c ∷ b) ≡ some (a, b)
unfolding cut_last
cut_last-append c [] b h = ground (arith, cut_last_absent c b h)
cut_last-append c (d ∷ a) b h = ground (arith, cut_last-append c a b h)

contains_of_cut_last : (c : ℕ) (s : Bytes) → cut_last c s ≡ none → contains c s ≡ false
unfolding cut_last
contains_of_cut_last c [] h = refl
contains_of_cut_last c (d ∷ s) h = elim (Option-cases (cut_last c s)) [
  | inr (r, e) ↦ absurd (ground (arith, e, h))
  | inl e ↦ elim (Bool-cases (d == c)) [
    | inl f ↦ absurd (ground (arith, e, f, h))
    | inr f ↦ rw f (contains_of_cut_last c s e)
  ]
]

cut_last_sound :
    (c : ℕ) (s before behind : Bytes)
    → cut_last c s ≡ some (before, behind)
    → (s ≡ before ++ c ∷ behind) × (contains c behind ≡ false)
unfolding cut_last
cut_last_sound c [] before behind h = absurd (ground arith)
cut_last_sound c (d ∷ s) before behind h = elim (Option-cases (cut_last c s)) [
  | inl e ↦ elim (Bool-cases (d == c)) [
    | inr f ↦ absurd (ground (arith, e, f, h))
    | inl f ↦
        let none_before : before ≡ [] = ground (arith, e, f, h) in
        let all_behind : behind ≡ s = ground (arith, e, f, h) in
        rw (none_before, all_behind)
          (ap (λ (x : ℕ). x ∷ s) ((==_iff d c).0 f), contains_of_cut_last c s e)
  ]
  | inr ((a, b), e) ↦
      let (split, no_more) = cut_last_sound c s a b e in
      let longer : before ≡ d ∷ a = ground (arith, e, h) in
      let same : behind ≡ b = ground (arith, e, h) in
      rw (longer, same) (ap (λ (x : Bytes). d ∷ x) split, no_more)
]

-- No bracket is in the text.
abbrev pub HasNoBracket : Bytes → Type 0
HasNoBracket s = (contains b'[' s ≡ false) × (contains b']' s ≡ false)

bracketed_host_sound :
    (s host : Bytes) → bracketed_host s ≡ some host → (s ≡ host ++ b']' ∷ []) × HasNoBracket host
unfolding bracketed_host
bracketed_host_sound [] host h = absurd (ground arith)
bracketed_host_sound (c ∷ []) host h = elim (Bool-cases (c == b']')) [
  | inr e ↦ absurd (ground (arith, e, h))
  | inl e ↦
      let empty : host ≡ [] = ground (arith, e, h) in
      rw empty (ap (λ (x : ℕ). x ∷ []) ((==_iff c b']').0 e), (refl, refl))
]
bracketed_host_sound (c ∷ d ∷ s) host h = elim (Bool-cases ((c == b'[') || (c == b']'))) [
  | inl e ↦ absurd (ground (arith, e, h))
  | inr e ↦ elim (Option-cases (bracketed_host (d ∷ s))) [
    | inl f ↦ absurd (ground (arith, e, f, h))
    | inr (rest, f) ↦
        let longer : host ≡ c ∷ rest = ground (arith, e, f, h) in
        let (split, (none_open, none_close)) = bracketed_host_sound (d ∷ s) rest f in
        rw longer (
          ap (λ (x : Bytes). c ∷ x) split,
          (ground (arith, e, none_open), ground (arith, e, none_close)),
        )
  ]
]

-- The hosts that stand for this machine.
abbrev pub IsLoopback : Bytes → Type 0
IsLoopback host = (host ≡ codes "127.0.0.1") ⊎ ((host ≡ codes "::1") ⊎ (host ≡ codes "localhost"))

is_loopback_sound : (host : Bytes) → is_loopback host ≡ true → IsLoopback host
is_loopback_sound host h = elim (Bool-cases (bytes_eq host (codes "127.0.0.1"))) [
  | inl e ↦ inl (bytes_eq_sound host (codes "127.0.0.1") e)
  | inr e ↦ elim (Bool-cases (bytes_eq host (codes "::1"))) [
    | inl f ↦ inr (inl (bytes_eq_sound host (codes "::1") f))
    | inr f ↦ inr (inr (bytes_eq_sound host (codes "localhost") (rw (e, f) at h)))
  ]
]

is_loopback_complete : (host : Bytes) → IsLoopback host → is_loopback host ≡ true
is_loopback_complete host (inl e) = rw e refl
is_loopback_complete host (inr (inl e)) = rw e refl
is_loopback_complete host (inr (inr e)) = rw e refl

-- How a host is written before the last colon: with brackets, or without, if it has no colon.
abbrev pub IsHostText : Bytes → Bytes → Type 0
IsHostText before host =
    ((before ≡ host) × (contains b':' host ≡ false)) ⊎ (before ≡ b'[' ∷ (host ++ b']' ∷ []))

plain_host_sound : (before host : Bytes) → plain_host before ≡ some host → IsHostText before host
plain_host_sound before host h = elim (Bool-cases (contains b':' before)) [
  | inl e ↦ absurd (ground (arith, e, h))
  | inr e ↦ elim (Bool-cases (contains b'[' before || contains b']' before)) [
    | inl f ↦ absurd (ground (arith, e, f, h))
    | inr f ↦ let same : before ≡ host = ground (arith, e, f, h) in inl (same, rw same at e)
  ]
]

host_before_sound : (before host : Bytes) → host_before before ≡ some host → IsHostText before host
host_before_sound [] host h = plain_host_sound [] host h
host_before_sound (c ∷ before) host h = elim (Bool-cases (c == b'[')) [
  | inr e ↦
      plain_host_sound (c ∷ before) host (
        sym (ap (λ (b : Bool). if b then bracketed_host before else plain_host (c ∷ before)) e) ∙ h)
  | inl e ↦
      let (split, no_bracket) = bracketed_host_sound before host (rw e at h) in
      inr (ap (λ (x : ℕ). x ∷ before) ((==_iff c b'[').0 e) ∙ ap (λ (x : Bytes). b'[' ∷ x) split)
]

host_before_complete :
    (before host : Bytes)
    → IsLoopback host
    → IsHostText before host
    → host_before before ≡ some host
unfolding bracketed_host
host_before_complete before host (inl e) (inl (f, g)) = rw (f, e) refl
host_before_complete before host (inl e) (inr f) = rw (f, e) refl
host_before_complete before host (inr (inl e)) (inl (f, g)) = absurd (ground (arith, (rw e at g)))
host_before_complete before host (inr (inl e)) (inr f) = rw (f, e) refl
host_before_complete before host (inr (inr e)) (inl (f, g)) = rw (f, e) refl
host_before_complete before host (inr (inr e)) (inr f) = rw (f, e) refl

-- The text of a port: not empty, with no colon and no bracket.
pub record IsPortText (port : Bytes) : Type 0 where
  pub some_port : port ≢ []
  pub no_colon : contains b':' port ≡ false
  pub no_bracket : HasNoBracket port

with_port_sound :
    (port host p : Bytes) (o : Option Bytes)
    → with_port port o ≡ some (host, p)
    → (o ≡ some host) × (p ≡ port) × HasNoBracket port
with_port_sound port host p none h = absurd (ground arith)
with_port_sound port host p (some x) h = elim (Bool-cases (contains b'[' port)) [
  | inl e ↦ absurd (ground (arith, e, h))
  | inr e ↦ elim (Bool-cases (contains b']' port)) [
    | inl f ↦ absurd (ground (arith, e, f, h))
    | inr f ↦ (ground (arith, e, f, h), ground (arith, e, f, h), (e, f))
  ]
]

-- An address is accepted exactly if it is one of 127.0.0.1, ::1 and localhost, in brackets or, for the
-- two without a colon, without them, then a colon, and a port that is not empty and has no colon or
-- bracket: the endpoint is never bound to an empty host, a wildcard or another interface.
pub validate_addr_iff :
    (addr : Bytes)
    → (validate_addr addr ≡ true) ↔ (
        (before : Bytes) × (port : Bytes) × (host : Bytes) × (addr ≡ before ++ b':' ∷ port)
        × IsHostText before host
        × IsLoopback host
        × IsPortText port)
unfolding validate_addr split_host_port
validate_addr_iff addr = (forward, backward)
  where
    forward :
        validate_addr addr ≡ true
        → (before : Bytes) × (port : Bytes) × (host : Bytes) × (addr ≡ before ++ b':' ∷ port)
          × IsHostText before host
          × IsLoopback host
          × IsPortText port
    forward h = elim (Option-cases (cut_last b':' addr)) [
      | inl e ↦ absurd (ground (arith, e, h))
      | inr ((before, port), e) ↦ elim (Option-cases (with_port port (host_before before))) [
        | inl f ↦ absurd (ground (arith, e, f, h))
        | inr ((host, p), f) ↦
            let (split, no_colon) = cut_last_sound b':' addr before port e in
            let (is_host, same, no_bracket) = with_port_sound port host p (host_before before) f in
            elim (Bool-cases (bytes_eq p [])) [
              | inl g ↦ absurd (ground (arith, e, f, g, h))
              | inr g ↦ (
                before,
                port,
                host,
                split,
                host_before_sound before host is_host,
                is_loopback_sound host (ground (arith, e, f, g, h)),
                record {
                  some_port = λ z. absurd (ground (arith, g, same, z));
                  no_colon = no_colon;
                  no_bracket = no_bracket;
                },
              )
            ]
      ]
    ]

    backward :
        ((before : Bytes) × (port : Bytes) × (host : Bytes) × (addr ≡ before ++ b':' ∷ port)
          × IsHostText before host
          × IsLoopback host
          × IsPortText port)
        → validate_addr addr ≡ true
    backward (before, [], host, split, text, local, is_port) = absurd (is_port.some_port refl)
    backward (before, c ∷ port, host, split, text, local, is_port) =
        rw
          (
            split,
            cut_last-append b':' before (c ∷ port) is_port.no_colon,
            host_before_complete before host local text,
            is_port.no_bracket.0,
            is_port.no_bracket.1,
          )
          (is_loopback_complete host local)
