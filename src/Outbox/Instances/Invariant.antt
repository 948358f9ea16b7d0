-- ===== src/Outbox/Instances/Invariant.antt =====
-- What every interleaving of the outbox processors keeps
-- (src/libs/shared/database/outbox/outbox-processor.service.ts).
pub mod Acquire
pub mod Publish
pub mod Settle
use app_tu_phuc_vu.Prelude.{
  ℕ, ◌+◌, ◌≤◌, Bool, true, false, ◌≡◌, ◌≢◌, ◌⊎◌, inl, inr, ◌==◌, ==_iff, Bool-cases, ap, sym, ◌∙◌,
  Option, none, some, leb, arith,
}
use app_tu_phuc_vu.Prelude.Text.{Text, text_eq}
use app_tu_phuc_vu.Outbox.Repository.{
  Row, Status, pending, processing, processed, failed, is_processing,
}
use app_tu_phuc_vu.Outbox.Repository.Finding.{find, IsKeyed}
use app_tu_phuc_vu.Outbox.Processor.{EventBus}
use app_tu_phuc_vu.Outbox.Instances.{
  Phase, idle, working, holding, delivered, broken, System, at, times_handed,
}

-- Does the instance hold the entry, and has it not yet tried to publish it?
abbrev pub holds : Phase → Text → Bool
holds idle id = false
holds (working batch) id = false
holds (holding x rest) id = text_eq x.id id
holds (delivered x rest) id = text_eq x.id id
holds (broken x error rest) id = text_eq x.id id

abbrev pub unpublished : Phase → Text → Bool
unpublished (holding x rest) id = text_eq x.id id
unpublished _ id = false

pub unpublished-holds : (p : Phase) (id : Text) → unpublished p id ≡ true → holds p id ≡ true
unpublished-holds idle id h = absurd (cc)
unpublished-holds (working batch) id h = absurd (cc)
unpublished-holds (holding x rest) id h = h
unpublished-holds (delivered x rest) id h = absurd (cc)
unpublished-holds (broken x error rest) id h = absurd (cc)

pub at_cases :
    (i : ℕ) (p : Phase) (phase : ℕ → Phase) (j : ℕ)
    → ((i ≡ j) × (at i p phase j ≡ p)) ⊎ ((i ≢ j) × (at i p phase j ≡ phase j))
at_cases i p phase j = elim (Bool-cases (i == j)) [
  | inl same ↦ inl ((==_iff i j).0 same, ground arith)
  | inr other ↦ inr ((λ eq. absurd (ground (arith, ==_iff i j))), ground arith)
]

-- What is held in a phase is held in one that is equal to it.
before : {p q : Phase} (id : Text) → p ≡ q → holds p id ≡ true → holds q id ≡ true
before id eq h = ap (λ x. holds x id) (sym eq) ∙ h

-- The new phase of an instance says nothing that the old one did not.
pub at_quiet :
    (f : Phase → Text → Bool) (i : ℕ) (p : Phase) (phase : ℕ → Phase)
    → ((id : Text) → f p id ≡ true → f (phase i) id ≡ true)
    → (j : ℕ) (id : Text) → f (at i p phase j) id ≡ true
    → f (phase j) id ≡ true
at_quiet f i p phase own j id h = elim (at_cases i p phase j) [
  | inl (same, eq) ↦ ap (λ k. f (phase k) id) (sym same) ∙ own id (ap (λ q. f q id) (sym eq) ∙ h)
  | inr (other, eq) ↦ ap (λ q. f q id) (sym eq) ∙ h
]

-- Two instances hold no entry together, if no old instance holds what the changed one does.
pub at_alone :
    (i : ℕ) (p : Phase) (phase : ℕ → Phase)
    → ((j : ℕ) (id : Text) → holds p id ≡ true → holds (phase j) id ≡ true → i ≡ j)
    → ((j k : ℕ) (id : Text) → holds (phase j) id ≡ true → holds (phase k) id ≡ true → j ≡ k)
    → (j k : ℕ) (id : Text) → holds (at i p phase j) id ≡ true
    → holds (at i p phase k) id ≡ true
    → j ≡ k
at_alone i p phase alone apart j k id hⱼ hₖ = elim (at_cases i p phase j) [
  | inl (same, eq) ↦ elim (at_cases i p phase k) [
    | inl (same', eq') ↦ sym same ∙ same'
    | inr (other', eq') ↦ sym same ∙ alone k id (before id eq hⱼ) (before id eq' hₖ)
  ]
  | inr (other, eq) ↦ elim (at_cases i p phase k) [
    | inl (same', eq') ↦ sym (alone j id (before id eq' hₖ) (before id eq hⱼ)) ∙ same'
    | inr (other', eq') ↦ apart j k id (before id eq hⱼ) (before id eq' hₖ)
  ]
]

-- How far the count of publications may be ahead of the count of retries, and how far the count of
-- retries stays below their limit.
abbrev pub ahead : Status → ℕ
ahead pending = 0
ahead processing = 1
ahead processed = 1
ahead failed = 0

abbrev pub spare : Status → ℕ
spare failed = 0
spare _ = 1

abbrev pub claimed : Option Row → Bool
claimed none = false
claimed (some r) = is_processing r.status

abbrev pub fresh : ℕ → Option Row → Bool
fresh n none = false
fresh n (some r) = leb n r.retry_count

abbrev pub Tally : ℕ → ℕ → Option Row → Type 0
Tally m n none = n ≤ m
Tally m n (some r) = (n ≤ r.retry_count + ahead r.status) × (r.retry_count + spare r.status ≤ m)

module _ (m : ℕ) where
  module _ {b : EventBus} where
    pub record IsConsistent (s : System b) : Type 0 where
      pub keyed : IsKeyed s.rows
      pub tally : (id : Text) → Tally m (times_handed id s.handed) (find id s.rows)
      pub held : (i : ℕ) (id : Text) → holds (s.phase i) id ≡ true → claimed (find id s.rows) ≡ true
      pub unsent :
          (i : ℕ) (id : Text)
          → unpublished (s.phase i) id ≡ true
          → fresh (times_handed id s.handed) (find id s.rows) ≡ true
      pub apart :
          (i j : ℕ) (id : Text) → holds (s.phase i) id ≡ true → holds (s.phase j) id ≡ true → i ≡ j

    -- A step that takes up no entry, and changes no row that an instance may hold.
    pub quiet :
        (s t : System b)
        → IsConsistent s
        → t.handed ≡ s.handed
        → IsKeyed t.rows
        → ((id : Text) → Tally m (times_handed id s.handed) (find id t.rows))
        → ((id : Text) → claimed (find id s.rows) ≡ true → find id t.rows ≡ find id s.rows)
        → ((i : ℕ) (id : Text) → holds (t.phase i) id ≡ true → holds (s.phase i) id ≡ true)
        → ((i : ℕ) (id : Text)
            → unpublished (t.phase i) id ≡ true
            → unpublished (s.phase i) id ≡ true)
        → IsConsistent t
    quiet s t ok_s same keyed tally rows held unsent = record {
      keyed = keyed;
      tally = λ id. rw same (tally id);
      held = λ i id h. let was = ok_s.held i id (held i id h) in rw (rows id was) was;
      unsent = λ i id h.
          let was = unsent i id h in
          rw (same, rows id (ok_s.held i id (unpublished-holds (s.phase i) id was)))
            (ok_s.unsent i id was);
      apart = λ i j id hᵢ hⱼ. ok_s.apart i j id (held i id hᵢ) (held j id hⱼ);
    }
