-- ===== src/Agent/DamonSource/Outcomes.antt =====
-- How `damonSource` leaves the kernel.
use memaudit.Base.{
  ◌≡◌, ◌⊎◌, inl, inr, refl, sym, ap, ◌∙◌, Bool, false, List, [], ◌∷◌, ◌++◌, codes, Option, none,
  some, Result, ok, err, Bool-cases,
}
use memaudit.Config.{DamonConfig}
use memaudit.Damon.Region.{Region, SnapshotError}
use memaudit.Damon.Detect.{detect_at}
use memaudit.Damon.Session.{
  AddrRange, SysfsWrite, Session, at, kdamond_path, state_path, off_write, on_write, config_writes,
  start, stop,
}
use memaudit.Damon.Session.Order.{AllAccepted, start_ok, start_ok-session, start_err}
use memaudit.Agent.DamonSource.{
  DamonHost, session_config, read_iomem, update_write, probed, keep_probed, probe, start_on,
  usable_caps, damon_source,
}

-- The session of the first kdamond.
abbrev pub kdamond_session : Session
kdamond_session = record { kdamond = kdamond_path }

module _ (accepts : List SysfsWrite → SysfsWrite → Bool) (host : DamonHost) (cfg : DamonConfig)
    (log : List SysfsWrite) where
  -- A whole start of a session over the ranges of /proc/iomem.
  abbrev pub started : List AddrRange → List SysfsWrite
  started regions =
      log ++ (off_write ∷ (config_writes (session_config cfg regions) ++ on_write ∷ []))

  -- The kernel has taken each write of the start behind the first.
  abbrev pub StartAccepted : List AddrRange → Type 0
  StartAccepted regions =
      AllAccepted accepts (log ++ off_write ∷ [])
        (config_writes (session_config cfg regions) ++ on_write ∷ [])

  -- The four ways in which the source comes out.
  pub data Outcome : List SysfsWrite × Option Session → Type 0 where
    -- DAMON or its memory ranges are missing: nothing is written.
    unusable :
        (usable_caps (detect_at host.nr_kdamonds host.osrelease) ≡ false)
          ⊎ (read_iomem host.iomem ≡ none)
        → Outcome (log, none)
    -- The kernel refused a write of the start, which stopped there.
    refused :
        {regions : List AddrRange} {writes : List SysfsWrite} (done left : List SysfsWrite)
        (v : SysfsWrite)
        → read_iomem host.iomem ≡ some regions
        → config_writes (session_config cfg regions) ++ on_write ∷ [] ≡ done ++ v ∷ left
        → AllAccepted accepts (log ++ off_write ∷ []) done
        → accepts ((log ++ off_write ∷ []) ++ done) v ≡ false
        → writes ≡ (log ++ off_write ∷ []) ++ (done ++ v ∷ [])
        → Outcome (writes, none)
    -- The probe of the started session failed: the last write asks to turn it off.
    stopped :
        {regions : List AddrRange} {writes : List SysfsWrite} (e : SnapshotError)
        → read_iomem host.iomem ≡ some regions
        → StartAccepted regions
        → probed accepts host.tried kdamond_session (started regions) ≡ err e
        → writes ≡ (started regions ++ update_write kdamond_session ∷ []) ++ off_write ∷ []
        → Outcome (writes, none)
    -- The session is started, and a snapshot of it could be read.
    registered :
        {regions : List AddrRange} {snapshot_ : List Region} {writes : List SysfsWrite}
        → read_iomem host.iomem ≡ some regions
        → StartAccepted regions
        → probed accepts host.tried kdamond_session (started regions) ≡ ok snapshot_
        → writes ≡ started regions ++ update_write kdamond_session ∷ []
        → Outcome (writes, some kdamond_session)

  stop_log : (l : List SysfsWrite) → (stop accepts kdamond_session l).0 ≡ l ++ off_write ∷ []
  unfolding stop off_write
  stop_log l = elim (Bool-cases (accepts l (at state_path (codes "off")))) [
    | inl e ↦ rw e refl
    | inr e ↦ rw e refl
  ]

  kept-Outcome :
      (regions : List AddrRange) (l : List SysfsWrite) (r : Result SnapshotError (List Region))
      → read_iomem host.iomem ≡ some regions
      → StartAccepted regions
      → l ≡ started regions
      → probed accepts host.tried kdamond_session l ≡ r
      → Outcome (
          keep_probed accepts host.tried kdamond_session (l ++ update_write kdamond_session ∷ []) r)
  kept-Outcome regions l (ok snapshot_) e all f g =
      registered e all (rw f at g)
        (ap (λ (k : List SysfsWrite). k ++ update_write kdamond_session ∷ []) f)
  kept-Outcome regions l (err x) e all f g = stopped x e all (rw f at g) (
      stop_log (l ++ update_write kdamond_session ∷ [])
      ∙ ap (λ (k : List SysfsWrite). (k ++ update_write kdamond_session ∷ []) ++ off_write ∷ []) f)

  probe-Outcome :
      (regions : List AddrRange) (r : List SysfsWrite × Result SysfsWrite Session)
      → start accepts (session_config cfg regions) log ≡ r
      → read_iomem host.iomem ≡ some regions
      → Outcome (probe accepts host.tried r)
  probe-Outcome regions (l, err v) g e =
      let fact = start_err accepts (session_config cfg regions) log v (ap (λ r. r.1) g) in
      let (done, left, split, written, taken, why) = fact in
      refused done left v e split taken why (sym (ap (λ r. r.0) g) ∙ written)
  probe-Outcome regions (l, ok s) g e =
      let (is_first, all) =
        start_ok-session accepts (session_config cfg regions) log (ap (λ r. r.1) g) in
      rw is_first (
        kept-Outcome regions l (probed accepts host.tried kdamond_session l) e all
          (sym (ap (λ r. r.0) g)
            ∙ start_ok accepts (session_config cfg regions) log (ap (λ r. r.1) g))
          refl)

  start_on-Outcome :
      (ranges : Option (List AddrRange))
      → read_iomem host.iomem ≡ ranges
      → Outcome (start_on accepts host.tried cfg ranges log)
  start_on-Outcome none e = unusable (inr e)
  start_on-Outcome (some regions) e =
      probe-Outcome regions (start accepts (session_config cfg regions) log) refl e

  -- A DAMON source is registered only with the session of the first kdamond, whose configuration over
  -- the memory of /proc/iomem and `on` the kernel has accepted whole, and of which a snapshot could be
  -- read. Where it is not, either nothing was written, or the start stopped at the first write behind
  -- the leading `off` that the kernel refused, or such a session was started, its probe failed, and the
  -- last write, which may be refused, asks the same kdamond to turn off.
  pub damon_source-Outcome : Outcome (damon_source accepts host cfg log)
  unfolding damon_source
  damon_source-Outcome =
      elim (Bool-cases (usable_caps (detect_at host.nr_kdamonds host.osrelease))) [
        | inl e ↦ rw e (start_on-Outcome (read_iomem host.iomem) refl)
        | inr e ↦ rw e (unusable (inl e))
      ]
