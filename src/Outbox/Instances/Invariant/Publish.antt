-- ===== src/Outbox/Instances/Invariant/Publish.antt =====
-- The steps in which an instance hands its entry to the bus, in processEntry of
-- src/libs/shared/database/outbox/outbox-processor.service.ts.
use app_tu_phuc_vu.Prelude.{
  ℕ, suc, true, false, ◌≡◌, inl, inr, Bool-cases, ap, sym, ◌∙◌, Option, none, some, List, ◌∷◌,
  arith,
}
use app_tu_phuc_vu.Prelude.Text.{Text, text_eq}
use app_tu_phuc_vu.Outbox.Repository.{Row}
use app_tu_phuc_vu.Outbox.Repository.Finding.{find}
use app_tu_phuc_vu.Outbox.Processor.{EventBus}
use app_tu_phuc_vu.Outbox.Instances.{Phase, holding, System, at, times_handed}
use app_tu_phuc_vu.Outbox.Instances.Invariant.{
  holds, unpublished, unpublished-holds, at_cases, at_quiet, claimed, fresh, Tally, IsConsistent,
}

times_own :
    (x id : Text) (handed : List Text)
    → text_eq x id ≡ true
    → times_handed id (x ∷ handed) ≡ suc (times_handed id handed)
times_own x id handed h = ground (arith, h)

times_other :
    (x id : Text) (handed : List Text)
    → text_eq x id ≡ false
    → times_handed id (x ∷ handed) ≡ times_handed id handed
times_other x id handed h = ground (arith, h)

module _ {b : EventBus} (m : ℕ) (s : System b) (ok_s : IsConsistent m s) (i : ℕ) (x : Row)
    (rest : List Row) (now_holds : s.phase i ≡ holding x rest) where
  held_here : (id : Text) → text_eq x.id id ≡ true → holds (s.phase i) id ≡ true
  held_here id same = ap (λ q. holds q id) now_holds ∙ same

  unsent_here : (id : Text) → text_eq x.id id ≡ true → unpublished (s.phase i) id ≡ true
  unsent_here id same = ap (λ q. unpublished q id) now_holds ∙ same

  next-Tally :
      (n : ℕ) (o : Option Row)
      → claimed o ≡ true
      → fresh n o ≡ true
      → Tally m n o
      → Tally m (suc n) o
  next-Tally n none h f t = absurd (cc)
  next-Tally n (some r) h f t = ground arith

  handed-Tally : (id : Text) → Tally m (times_handed id (x.id ∷ s.handed)) (find id s.rows)
  handed-Tally id = elim (Bool-cases (text_eq x.id id)) [
    | inl same ↦ rw (times_own x.id id s.handed same) (
        next-Tally (times_handed id s.handed) (find id s.rows) (ok_s.held i id (held_here id same))
          (ok_s.unsent i id (unsent_here id same)) (ok_s.tally id))
    | inr other ↦ rw (times_other x.id id s.handed other) (ok_s.tally id)
  ]

  -- Whatever the bus answers, one more publication of the entry is counted.
  pub handed-IsConsistent :
      (bus : b.Bus) (p : Phase)
      → ((id : Text) → holds p id ≡ true → text_eq x.id id ≡ true)
      → ((id : Text) → unpublished p id ≡ false)
      → IsConsistent m (record s { bus = bus; handed = x.id ∷ s.handed; phase = at i p s.phase })
  handed-IsConsistent bus p own sent =
      let quiet_holds = at_quiet holds i p s.phase (λ id h. held_here id (own id h)) in
      record {
        keyed = ok_s.keyed;
        tally = handed-Tally;
        held = λ j id h. ok_s.held j id (quiet_holds j id h);
        unsent = λ j id h. elim (at_cases i p s.phase j) [
          | inl (same, eq) ↦ absurd (ground (arith, sent id))
          | inr (other, eq) ↦
              let was = ap (λ q. unpublished q id) (sym eq) ∙ h in
              elim (Bool-cases (text_eq x.id id)) [
                | inl same ↦ absurd (
                    other (
                      ok_s.apart i j id (held_here id same) (unpublished-holds (s.phase j) id was)))
                | inr apart ↦ rw (times_other x.id id s.handed apart) (ok_s.unsent j id was)
              ]
        ];
        apart = λ j k id hⱼ hₖ. ok_s.apart j k id (quiet_holds j id hⱼ) (quiet_holds k id hₖ);
      }
