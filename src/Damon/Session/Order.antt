-- ===== src/Damon/Session/Order.antt =====
-- The order of the writes of a session, and what a session monitors.
use memaudit.Base.{
  ℕ, ◌+◌, ◌≤◌, ◌<◌, ◌≡◌, ◌⊎◌, inl, inr, refl, sym, ap, ◌∙◌, Bool, true, false, List, Bytes, codes,
  format_uint, [], ◌∷◌, ◌++◌, append_assoc, append-nil, Result, ok, err, add64, map, NumError,
  parse_uint, parse_uint-format_uint, max_uint64, arith, Bool-cases, All,
}
use memaudit.Damon.Session.{
  AddrRange, Config, FilePath, SysfsWrite, Session, context_path, kdamond_path, off_write, on_write,
  region_writes, config_writes, write_all, start, then_on,
}

module _ (accepts : List SysfsWrite → SysfsWrite → Bool) where
  -- The kernel takes each of the writes in its turn, after those before it.
  abbrev pub AllAccepted : List SysfsWrite → List SysfsWrite → Type 0
  AllAccepted log [] = Unit
  AllAccepted log (w ∷ writes) = (accepts log w ≡ true) × AllAccepted (log ++ w ∷ []) writes

  AllAccepted-append :
      (log writes : List SysfsWrite) (w : SysfsWrite)
      → AllAccepted log writes
      → accepts (log ++ writes) w ≡ true
      → AllAccepted log (writes ++ w ∷ [])
  AllAccepted-append log [] w all e = (rw append-nil at e, tt)
  AllAccepted-append log (v ∷ writes) w (d, all) e =
      (d, AllAccepted-append (log ++ v ∷ []) writes w all (rw append_assoc e))

  write_all_accepted :
      (log writes : List SysfsWrite) (u : Unit {0})
      → (write_all accepts log writes).1 ≡ ok u
      → AllAccepted log writes
  unfolding write_all
  write_all_accepted log [] u h = tt
  write_all_accepted log (w ∷ writes) u h = elim (Bool-cases (accepts log w)) [
    | inl e ↦ (e, write_all_accepted (log ++ w ∷ []) writes u (rw (e, write_all) at h))
    | inr e ↦ absurd (ground arith)
  ]

  write_all_ok :
      (log writes : List SysfsWrite) (u : Unit {0})
      → (write_all accepts log writes).1 ≡ ok u
      → (write_all accepts log writes).0 ≡ log ++ writes
  unfolding write_all
  write_all_ok log [] u h = sym (append-nil log)
  write_all_ok log (w ∷ writes) u h = elim (Bool-cases (accepts log w)) [
    | inl e ↦
        rw (e, write_all)
          (write_all_ok (log ++ w ∷ []) writes u (rw (e, write_all) at h)
            ∙ append_assoc log (w ∷ []) writes)
    | inr e ↦ absurd (ground arith)
  ]

  write_all_err :
      (log writes : List SysfsWrite) (v : SysfsWrite)
      → (write_all accepts log writes).1 ≡ err v
      → (done : List SysfsWrite) × (left : List SysfsWrite) × (writes ≡ done ++ v ∷ left)
        × ((write_all accepts log writes).0 ≡ log ++ (done ++ v ∷ []))
        × AllAccepted log done
        × (accepts (log ++ done) v ≡ false)
  unfolding write_all
  write_all_err log [] v h = absurd (ground arith)
  write_all_err log (w ∷ writes) v h = elim (Bool-cases (accepts log w)) [
    | inl e ↦
        let (done, left, split, log_is, taken, refused) =
          write_all_err (log ++ w ∷ []) writes v (rw (e, write_all) at h) in
        (
          w ∷ done,
          left,
          ap (λ t. w ∷ t) split,
          rw (e, write_all) (log_is ∙ append_assoc log (w ∷ []) _),
          (e, taken),
          rw append_assoc at refused,
        )
    | inr e ↦
        let same : w ≡ v = ground arith in
        (
          [],
          writes,
          ap (λ t. t ∷ writes) same,
          rw e (ap (λ t. log ++ t ∷ []) same),
          tt,
          rw append-nil (rw (← same) e),
        )
  ]

  then_on_ok :
      (r : List SysfsWrite × Result SysfsWrite (Unit {0})) {s : Session}
      → (then_on accepts r).1 ≡ ok s
      → (r.1 ≡ ok tt) × ((then_on accepts r).0 ≡ r.0 ++ on_write ∷ [])
  then_on_ok (log, err w) h = absurd (ground arith)
  then_on_ok (log, ok u) h = elim (Bool-cases (accepts log on_write)) [
    | inl e ↦ (refl, rw e refl)
    | inr e ↦ (refl, rw e refl)
  ]

  then_on_err :
      (r : List SysfsWrite × Result SysfsWrite (Unit {0})) (v : SysfsWrite)
      → (then_on accepts r).1 ≡ err v
      → ((r.1 ≡ err v) × ((then_on accepts r).0 ≡ r.0))
        ⊎ ((r.1 ≡ ok tt)
            × (on_write ≡ v)
            × ((then_on accepts r).0 ≡ r.0 ++ on_write ∷ [])
            × (accepts r.0 on_write ≡ false))
  then_on_err (log, err w) v h = inl (ground arith, refl)
  then_on_err (log, ok u) v h = elim (Bool-cases (accepts log on_write)) [
    | inl e ↦ absurd (ground arith)
    | inr e ↦ inr (refl, ground arith, rw e refl, e)
  ]

  then_on-session :
      (r : List SysfsWrite × Result SysfsWrite (Unit {0})) {s : Session}
      → (then_on accepts r).1 ≡ ok s
      → (s ≡ record { kdamond = kdamond_path }) × (accepts r.0 on_write ≡ true)
  then_on-session (log, err w) h = absurd (ground arith)
  then_on-session (log, ok u) h = elim (Bool-cases (accepts log on_write)) [
    | inl e ↦ (ground arith, e)
    | inr e ↦ absurd (ground arith)
  ]

  -- The session that started is that of the first kdamond, and the kernel has taken its whole
  -- configuration and the write that turns it on.
  pub start_ok-session :
      (cfg : Config) (log : List SysfsWrite) {s : Session}
      → (start accepts cfg log).1 ≡ ok s
      → (s ≡ record { kdamond = kdamond_path })
        × AllAccepted (log ++ off_write ∷ []) (config_writes cfg ++ on_write ∷ [])
  unfolding start
  start_ok-session cfg log h =
      let begun = write_all accepts (log ++ off_write ∷ []) (config_writes cfg) in
      let (wrote, log_is) = then_on_ok begun h in
      let (is_first, turned_on) = then_on-session begun h in
      let written = write_all_ok (log ++ off_write ∷ []) (config_writes cfg) tt wrote in
      (
        is_first,
        AllAccepted-append (log ++ off_write ∷ []) (config_writes cfg) on_write
            (write_all_accepted (log ++ off_write ∷ []) (config_writes cfg) tt wrote)
            (rw (← written) turned_on),
      )

  -- A session that started has made all its writes, in this order: off, the configuration, on.
  pub start_ok :
      (cfg : Config) (log : List SysfsWrite) {s : Session}
      → (start accepts cfg log).1 ≡ ok s
      → (start accepts cfg log).0 ≡ log ++ (off_write ∷ (config_writes cfg ++ on_write ∷ []))
  unfolding start
  start_ok cfg log h =
      let begun = write_all accepts (log ++ off_write ∷ []) (config_writes cfg) in
      let (wrote, log_is) = then_on_ok begun h in
      (log_is
        ∙ (ap (λ t. t ++ on_write ∷ [])
              (write_all_ok (log ++ off_write ∷ []) (config_writes cfg) tt wrote)
            ∙ simp append_assoc))

  -- A start that failed has stopped at the first refused one among the writes of the configuration and
  -- the one that turns the kdamond on, in this order: the kernel took each of those before it, and none
  -- behind it was made. So the kdamond is turned on only behind a whole configuration that was accepted.
  pub start_err :
      (cfg : Config) (log : List SysfsWrite) (v : SysfsWrite)
      → (start accepts cfg log).1 ≡ err v
      → (done : List SysfsWrite) × (left : List SysfsWrite) × (config_writes cfg ++ on_write ∷ []
          ≡ done ++ v ∷ left)
        × ((start accepts cfg log).0 ≡ (log ++ off_write ∷ []) ++ (done ++ v ∷ []))
        × AllAccepted (log ++ off_write ∷ []) done
        × (accepts ((log ++ off_write ∷ []) ++ done) v ≡ false)
  unfolding start
  start_err cfg log v h =
      elim (then_on_err (write_all accepts (log ++ off_write ∷ []) (config_writes cfg)) v h) [
        | inl (refused, log_is) ↦
            let (done, left, split, written, taken, why) =
              write_all_err (log ++ off_write ∷ []) (config_writes cfg) v refused in
            (
              done,
              left ++ on_write ∷ [],
              ap (λ t. t ++ on_write ∷ []) split ∙ append_assoc done (v ∷ left) (on_write ∷ []),
              log_is ∙ written,
              taken,
              why,
            )
        | inr (wrote, same, log_is, why) ↦
            let written = write_all_ok (log ++ off_write ∷ []) (config_writes cfg) tt wrote in
            (
              config_writes cfg,
              [],
              ap (λ t. config_writes cfg ++ t ∷ []) same,
              log_is
                  ∙ (ap (λ t. t ++ on_write ∷ []) written
                      ∙ (append_assoc (log ++ off_write ∷ []) (config_writes cfg) (on_write ∷ [])
                          ∙ ap (λ t. (log ++ off_write ∷ []) ++ (config_writes cfg ++ t ∷ []))
                              same)),
              write_all_accepted (log ++ off_write ∷ []) (config_writes cfg) tt wrote,
              rw (← same, ← written) why,
            )
      ]

-- A file of the directory of a region.
abbrev pub region_file : ℕ → Bytes → FilePath
region_file i name =
    context_path ++ (codes "targets" ∷ codes "0" ∷ codes "regions" ∷ format_uint i ∷ name ∷ [])

-- The files that are written, in order, each with the number that is in it.
abbrev pub read_numbers : List SysfsWrite → List (FilePath × Result NumError ℕ)
read_numbers = map (λ (w : SysfsWrite). (w.path, parse_uint 10 max_uint64 w.value))

-- The files of regions that are numbered from `i` on, with the bytes of the ranges, half-open.
abbrev pub half_open : ℕ → List AddrRange → List (FilePath × Result NumError ℕ)
half_open i [] = []
half_open i (r ∷ regions) =
    (region_file i (codes "start"), ok r.start)
    ∷ (region_file i (codes "end"), ok (r.end + 1))
    ∷ half_open (i + 1) regions

-- Ranges that do not end at the last address.
abbrev pub IsBelowTop : AddrRange → Type 0
IsBelowTop r = (r.start ≤ r.end) × (r.end < max_uint64)

-- For ranges that end below the last address: each is written, in order, to the directory of its own
-- number, counted on from the given one, and the two numbers read back from the files `start` and `end`
-- there are those of the half-open range with the same bytes.
pub region_writes-read :
    (i : ℕ) (regions : List AddrRange)
    → All IsBelowTop regions
    → read_numbers (region_writes i regions) ≡ half_open i regions
unfolding region_writes
region_writes-read i [] h = refl
region_writes-read i (r ∷ regions) (h, hs) = ground (
  arith,
  parse_uint-format_uint max_uint64 r.start,
  parse_uint-format_uint max_uint64 (add64 r.end 1),
  region_writes-read (i + 1) regions hs,
)
