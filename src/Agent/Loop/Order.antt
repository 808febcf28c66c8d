-- ===== src/Agent/Loop/Order.antt =====
-- What the goroutines keep, in whatever order they run.
use memaudit.Base.{
  ℕ, ◌≡◌, ◌≢◌, inl, inr, refl, sym, ap, ◌∙◌, ◌==◌, ==_iff, List, [], ◌∷◌, ◌++◌, append_assoc,
  append-nil, Bytes, Result, ok, err, Bool-cases, arith, if◌then◌else◌, All,
}
use memaudit.Model.{Envelope}
use memaudit.Spool.State.{Spool}
use memaudit.Spool.Cap.{Encoders}
use memaudit.Spool.Ops.{WriteCalls}
use memaudit.Ship.{Shipper}
use memaudit.Agent.Sources.{SourceError}
use memaudit.Agent.Loop.{
  Phase, waiting, writing, returned, Agent, update, collect_tick, write_head, list_segments,
  ship_next, return_source, Step, collects, writes, ends_tick, cancels, lists, ships, returns,
  Reach, here, next, started,
}

-- What a goroutine still has to write in its tick.
abbrev pub pending : Phase → List Envelope
pending waiting = []
pending (writing envs) = envs
pending returned = []

-- The envelopes of one source among those passed to `Write`.
abbrev pub of_source : ℕ → List (ℕ × Envelope) → List Envelope
of_source i [] = []
of_source i ((j, e) ∷ rest) = if j == i then e ∷ of_source i rest else of_source i rest

of_source-append :
    (i : ℕ) (xs ys : List (ℕ × Envelope))
    → of_source i (xs ++ ys) ≡ of_source i xs ++ of_source i ys
of_source-append i [] ys = refl
of_source-append i ((j, e) ∷ xs) ys = ground (arith, of_source-append i xs ys)

-- Each source's envelopes are passed to `Write` in the order in which they were collected, and what is
-- not passed yet is pending; a source is closed only after its goroutine is done with its ticks.
pub record IsOrderly (a : Agent) : Type 0 where
  pub in_order : (i : ℕ) → of_source i a.attempted ++ pending (a.phase i) ≡ a.collected i
  pub closed_last : All (λ (i : ℕ). a.phase i ≡ returned) a.closed

-- A change of the phase of a source that leaves what it has to write.
in_order-update :
    (i : ℕ) (p : Phase) (a : Agent)
    → pending p ≡ pending (a.phase i)
    → ((j : ℕ) → of_source j a.attempted ++ pending (a.phase j) ≡ a.collected j)
    → (j : ℕ) → of_source j a.attempted ++ pending (update i p a.phase j) ≡ a.collected j
in_order-update i p a same h j = elim (Bool-cases (i == j)) [
  | inr other ↦ rw other (h j)
  | inl e ↦
      let i_is_j : i ≡ j = (==_iff i j).0 e in
      rw e (
        ap (λ (l : List Envelope). of_source j a.attempted ++ l)
          (same ∙ ap (λ (k : ℕ). pending (a.phase k)) i_is_j)
        ∙ h j)
]

-- The closed sources stay done where another one moves.
closed_last-update :
    (i : ℕ) (p : Phase) (phase : ℕ → Phase) (closed : List ℕ)
    → phase i ≢ returned
    → All (λ (k : ℕ). phase k ≡ returned) closed
    → All (λ (k : ℕ). update i p phase k ≡ returned) closed
closed_last-update i p phase [] ne all = tt
closed_last-update i p phase (k ∷ closed) ne (done, all) = (
  elim (Bool-cases (i == k)) [
    | inl e ↦ absurd (ne (ap phase ((==_iff i k).0 e) ∙ done))
    | inr other ↦ rw other done
  ],
  closed_last-update i p phase closed ne all,
)

waiting-ne-returned : {p : Phase} → p ≡ waiting → p ≢ returned
waiting-ne-returned e h = ground arith

writing-ne-returned : {p : Phase} {l : List Envelope} → p ≡ writing l → p ≢ returned
writing-ne-returned e h = ground arith

update_self : (i : ℕ) (p : Phase) (phase : ℕ → Phase) → update i p phase i ≡ p
update_self i p phase = ground arith

collect_tick-IsOrderly :
    (i : ℕ) (r : Result SourceError (List Envelope)) (a : Agent)
    → a.phase i ≡ waiting
    → IsOrderly a
    → IsOrderly (collect_tick i r a)
unfolding collect_tick
collect_tick-IsOrderly i (err e) a w o = o
collect_tick-IsOrderly i (ok envs) a w o = record {
  in_order = λ j. elim (Bool-cases (i == j)) [
    | inr other ↦ rw other (o.in_order j)
    | inl same ↦
        let i_is_j : i ≡ j = (==_iff i j).0 same in
        rw same (
          ap (λ (l : List Envelope). l ++ envs)
            (ap (λ (k : ℕ). of_source k a.attempted) (sym i_is_j)
              ∙ sym (append-nil (of_source i a.attempted))
              ∙ ap (λ (p : Phase). of_source i a.attempted ++ pending p) (sym w)
              ∙ o.in_order i))
  ];
  closed_last =
      closed_last-update i (writing envs) a.phase a.closed (waiting-ne-returned w) o.closed_last;
}

module _ (compress : Bytes → Bytes) (enc : Encoders) where
  write_head-IsOrderly :
      (i : ℕ) (calls : WriteCalls compress enc) (e : Envelope) (rest : List Envelope) (a : Agent)
      → a.phase i ≡ writing (e ∷ rest)
      → IsOrderly a
      → IsOrderly (write_head compress enc i calls e rest a)
  unfolding write_head
  write_head-IsOrderly i calls e rest a w o = record {
    in_order = λ j.
        ap (λ (l : List Envelope). l ++ pending (update i (writing rest) a.phase j))
          (of_source-append j a.attempted ((i, e) ∷ []))
        ∙ moved j;
    closed_last =
        closed_last-update i (writing rest) a.phase a.closed (writing-ne-returned w) o.closed_last;
  }
    where
      moved :
          (j : ℕ)
          → (of_source j a.attempted ++ of_source j ((i, e) ∷ []))
              ++ pending (update i (writing rest) a.phase j)
            ≡ a.collected j
      moved j = elim (Bool-cases (i == j)) [
        | inr other ↦ rw other (
            ap (λ (l : List Envelope). l ++ pending (a.phase j))
              (append-nil (of_source j a.attempted))
            ∙ o.in_order j)
        | inl same ↦
            let i_is_j : i ≡ j = (==_iff i j).0 same in
            rw same (
              append_assoc (of_source j a.attempted) (e ∷ []) rest
              ∙ ap (λ (p : Phase). of_source j a.attempted ++ pending p) (sym w ∙ ap a.phase i_is_j)
              ∙ o.in_order j)
      ]

  Step-IsOrderly : {a b : Agent} → Step compress enc a b → IsOrderly a → IsOrderly b
  unfolding list_segments ship_next return_source
  Step-IsOrderly {a} (collects i r w) o = collect_tick-IsOrderly i r a w o
  Step-IsOrderly {a} (writes i calls e rest w) o = write_head-IsOrderly i calls e rest a w o
  Step-IsOrderly {a} (ends_tick i w) o = record {
    in_order = in_order-update i waiting a (ap pending (sym w)) o.in_order;
    closed_last =
        closed_last-update i waiting a.phase a.closed (writing-ne-returned w) o.closed_last;
  }
  Step-IsOrderly cancels o = record { in_order = o.in_order; closed_last = o.closed_last }
  Step-IsOrderly (lists list_ok e) o = record { in_order = o.in_order; closed_last = o.closed_last }
  Step-IsOrderly (ships attempt name rest e) o = record {
    in_order = o.in_order;
    closed_last = o.closed_last;
  }
  Step-IsOrderly {a} (returns i closes w c) o =
      let still : All (λ (k : ℕ). update i returned a.phase k ≡ returned) a.closed =
        closed_last-update i returned a.phase a.closed (waiting-ne-returned w) o.closed_last in
      record {
        in_order = in_order-update i returned a (ap pending (sym w)) o.in_order;
        closed_last = elim (Bool-cases closes) [
          | inl e ↦ rw e (update_self i returned a.phase, still)
          | inr e ↦ rw e still
        ];
      }

  started-IsOrderly : (s : Spool) (shipper : Shipper) → IsOrderly (started s shipper)
  started-IsOrderly s shipper = record { in_order = λ i. refl; closed_last = tt }

  -- However the goroutines run between one another, each source's envelopes are passed to `Write` in the
  -- order in which its collector returned them, none is left out or passed twice, and a source is closed
  -- only when its goroutine has returned.
  pub Reach-IsOrderly :
      (s : Spool) (shipper : Shipper) {a : Agent}
      → Reach compress enc (started s shipper) a
      → IsOrderly a
  Reach-IsOrderly s shipper here = started-IsOrderly s shipper
  Reach-IsOrderly s shipper (next r st) = Step-IsOrderly st (Reach-IsOrderly s shipper r)

  -- A goroutine that has returned has passed on all that it collected.
  pub returned_all :
      (s : Spool) (shipper : Shipper) {a : Agent}
      → Reach compress enc (started s shipper) a
      → (i : ℕ) → a.phase i ≡ returned
      → of_source i a.attempted ≡ a.collected i
  returned_all s shipper {a} r i done =
      sym (append-nil (of_source i a.attempted))
      ∙ ap (λ (p : Phase). of_source i a.attempted ++ pending p) (sym done)
      ∙ (Reach-IsOrderly s shipper r).in_order i
