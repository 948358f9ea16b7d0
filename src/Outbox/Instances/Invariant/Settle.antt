-- ===== src/Outbox/Instances/Invariant/Settle.antt =====
-- The steps in which an instance settles its entry, markAsProcessed and markAsFailed of
-- src/libs/shared/database/outbox/outbox.repository.ts.
use app_tu_phuc_vu.Prelude.{
  ℕ, ◌+◌, true, false, ◌≡◌, inl, inr, Bool-cases, Option-cases, ap, sym, ◌∙◌, refl, Option, none,
  some, List, count_if, arith,
}
use app_tu_phuc_vu.Prelude.Text.{Text, text_eq, text_eq_iff}
use app_tu_phuc_vu.Outbox.Repository.{
  Row, processed, failed, is_processing, has_id, mark_as_processed, mark_as_failed,
}
use app_tu_phuc_vu.Outbox.Repository.Finding.{
  find, find-some, touched, find-update_where, IsKeyed-update_where,
}
use app_tu_phuc_vu.Outbox.Processor.{EventBus}
use app_tu_phuc_vu.Outbox.Instances.{working, System, at, times_handed}
use app_tu_phuc_vu.Outbox.Instances.Invariant.{
  holds, unpublished, unpublished-holds, at_cases, claimed, Tally, IsConsistent,
}

false_holds : (rest : List Row) (id : Text) → holds (working rest) id ≡ true → ⊥
false_holds rest id h = absurd (cc)

module _ {b : EventBus} (m : ℕ) (s : System b) (ok_s : IsConsistent m s) (i : ℕ) (x : Row)
    (rest : List Row)
    (own : (id : Text) → text_eq x.id id ≡ true → holds (s.phase i) id ≡ true) where
  module _ (change : Row → Row) (keeps : (r : Row) → (change r).id ≡ r.id)
      (settles : (n : ℕ) (r : Row)
        → is_processing r.status ≡ true
        → Tally m n (some r)
        → Tally m n (some (change r)))
      (rows : List Row)
      (found : (id : Text) → find id rows ≡ touched (has_id x.id) change (find id s.rows))
      (counted : (id : Text) → count_if (has_id id) rows ≡ count_if (has_id id) s.rows) where
    -- Another entry's row is as it was.
    other_row : (id : Text) → text_eq x.id id ≡ false → find id rows ≡ find id s.rows
    other_row id apart = elim (Option-cases (find id s.rows)) [
      | inl absent ↦ found id ∙ rw absent refl
      | inr (r, there) ↦
          let self = find-some id s.rows r there in
          let no_match : text_eq r.id x.id ≡ false =
            ground (arith, text_eq_iff r.id x.id, text_eq_iff x.id id) in
          found id ∙ rw (there, no_match) refl
    ]

    own_row :
        (n : ℕ) (o : Option Row)
        → claimed o ≡ true
        → Tally m n o
        → Tally m n (touched (has_id x.id) change o)
    own_row n none h t = t
    own_row n (some r) h t = elim (Bool-cases (text_eq r.id x.id)) [
      | inl same ↦ rw same (settles n r h t)
      | inr other ↦ rw other t
    ]

    -- What another instance holds is another entry.
    elsewhere :
        (j : ℕ) (id : Text)
        → holds (at i (working rest) s.phase j) id ≡ true
        → (holds (s.phase j) id ≡ true) × (text_eq x.id id ≡ false)
    elsewhere j id h = elim (at_cases i (working rest) s.phase j) [
      | inl (same, eq) ↦ absurd (false_holds rest id (ap (λ q. holds q id) (sym eq) ∙ h))
      | inr (other, eq) ↦
          let was = ap (λ q. holds q id) (sym eq) ∙ h in
          elim (Bool-cases (text_eq x.id id)) [
            | inl same ↦ absurd (other (ok_s.apart i j id (own id same) was))
            | inr apart ↦ (was, apart)
          ]
    ]

    settled-IsConsistent :
        IsConsistent m (record s { rows = rows; phase = at i (working rest) s.phase })
    settled-IsConsistent = record {
      keyed = λ id. ground (arith, counted id, ok_s.keyed id);
      tally = λ id. elim (Bool-cases (text_eq x.id id)) [
        | inl same ↦ rw (found id) (
            own_row (times_handed id s.handed) (find id s.rows) (ok_s.held i id (own id same))
              (ok_s.tally id))
        | inr apart ↦ rw (other_row id apart) (ok_s.tally id)
      ];
      held = λ j id h.
          let (was, apart) = elsewhere j id h in rw (other_row id apart) (ok_s.held j id was);
      unsent = λ j id h. elim (at_cases i (working rest) s.phase j) [
        | inl (same, eq) ↦ absurd (ground arith)
        | inr (other, eq) ↦
            let was = ap (λ q. unpublished q id) (sym eq) ∙ h in
            let (holding_it, apart) =
              elsewhere j id (ap (λ q. holds q id) eq ∙ unpublished-holds (s.phase j) id was) in
            rw (other_row id apart) (ok_s.unsent j id was)
      ];
      apart = λ j k id hⱼ hₖ. ok_s.apart j k id (elsewhere j id hⱼ).0 (elsewhere k id hₖ).0;
    }

  pub completes-IsConsistent :
      (now : ℕ)
      → IsConsistent m (record s {
        rows = mark_as_processed now x.id s.rows;
        phase = at i (working rest) s.phase;
      })
  unfolding mark_as_processed
  completes-IsConsistent now =
      let change = λ (r : Row). record r { status = processed; processed_at = some now } in
      settled-IsConsistent change (λ r. refl) (λ n r h t. ground arith)
        (mark_as_processed now x.id s.rows)
        (λ id. find-update_where (has_id x.id) change (λ r. refl) id s.rows)
        (λ id. IsKeyed-update_where (has_id x.id) change (λ r. refl) id s.rows)

  pub fails-IsConsistent :
      (error : Text)
      → IsConsistent m (record s {
        rows = mark_as_failed x.id error s.rows;
        phase = at i (working rest) s.phase;
      })
  unfolding mark_as_failed
  fails-IsConsistent error =
      let change = λ (r : Row). record r {
        status = failed;
        last_error = some error;
        retry_count = r.retry_count + 1;
      } in
      settled-IsConsistent change (λ r. refl) (λ n r h t. ground arith)
        (mark_as_failed x.id error s.rows)
        (λ id. find-update_where (has_id x.id) change (λ r. refl) id s.rows)
        (λ id. IsKeyed-update_where (has_id x.id) change (λ r. refl) id s.rows)
