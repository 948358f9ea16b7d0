-- ===== src/Outbox/Instances/Invariant/Acquire.antt =====
-- The step in which an instance of the outbox processor acquires an entry, markAsProcessing of
-- src/libs/shared/database/outbox/outbox.repository.ts.
use app_tu_phuc_vu.Prelude.{
  ℕ, true, ◌≡◌, inl, inr, Option-cases, ap, sym, ◌∙◌, refl, Option, none, some, List, count_if,
  arith,
}
use app_tu_phuc_vu.Prelude.Text.{Text, text_eq, text_eq_refl, text_eq_iff}
use app_tu_phuc_vu.Outbox.Repository.{Row, processing, has_id, is_takeable, mark_as_processing}
use app_tu_phuc_vu.Outbox.Repository.Finding.{
  find, find-some, touched, takeable, find-update_where, IsKeyed-update_where, acquired_lem,
}
use app_tu_phuc_vu.Outbox.Processor.{EventBus}
use app_tu_phuc_vu.Outbox.Instances.{holding, System, at, times_handed}
use app_tu_phuc_vu.Outbox.Instances.Invariant.{
  holds, unpublished, at_cases, at_alone, claimed, fresh, Tally, IsConsistent,
}

abbrev taken : Text → Option Row → Option Row
taken id o = touched (is_takeable id) (λ r. record r { status = processing }) o

module _ (m n : ℕ) (id : Text) where
  taken-Tally : (o : Option Row) → Tally m n o → Tally m n (taken id o)
  taken-Tally none h = h
  taken-Tally (some r) h = ground arith

  taken-claimed : (o : Option Row) → claimed o ≡ true → claimed (taken id o) ≡ true
  taken-claimed none h = h
  taken-claimed (some r) h = ground arith

  taken-fresh : (o : Option Row) → fresh n o ≡ true → fresh n (taken id o) ≡ true
  taken-fresh none h = h
  taken-fresh (some r) h = ground arith

  not_both : (o : Option Row) → takeable o ≡ true → claimed o ≡ true → ⊥
  not_both none h h' = absurd (cc)
  not_both (some r) h h' = ground arith

  taken-own :
      (rows : List Row)
      → takeable (find id rows) ≡ true
      → Tally m n (find id rows)
      → (claimed (taken id (find id rows)) ≡ true) × (fresh n (taken id (find id rows)) ≡ true)
  taken-own rows h tally = elim (Option-cases (find id rows)) [
    | inl absent ↦ absurd (ground arith)
    | inr (r, found) ↦
        let self : text_eq r.id id ≡ true = rw (find-some id rows r found) (text_eq_refl id) in
        (ground arith, ground arith)
  ]

module _ {b : EventBus} (m : ℕ) (s : System b) (ok_s : IsConsistent m s) (i : ℕ) (x : Row)
    (rest : List Row) where
  abbrev won : System b
  won = record s {
    rows = (mark_as_processing x.id s.rows).1;
    phase = at i (holding x rest) s.phase;
  }

  won-find : (id : Text) → find id won.rows ≡ taken x.id (find id s.rows)
  unfolding mark_as_processing
  won-find id =
      find-update_where (is_takeable x.id) (λ r. record r { status = processing }) (λ r. refl) id
        s.rows

  won-key : (id : Text) → count_if (has_id id) won.rows ≡ count_if (has_id id) s.rows
  unfolding mark_as_processing
  won-key id =
      IsKeyed-update_where (is_takeable x.id) (λ r. record r { status = processing }) (λ r. refl) id
        s.rows

  module _ (acquired : (mark_as_processing x.id s.rows).0 ≡ true) where
    takes : takeable (find x.id s.rows) ≡ true
    takes = sym (acquired_lem x.id s.rows (ok_s.keyed x.id)) ∙ acquired

    -- A pending entry is held by nobody.
    not_held : (j : ℕ) (id : Text) → text_eq x.id id ≡ true → holds (s.phase j) id ≡ true → ⊥
    not_held j id same h =
        let same_id : x.id ≡ id = (text_eq_iff x.id id).0 same in
        not_both m 0 x.id (find x.id s.rows) takes (rw same_id (ok_s.held j id h))

    ours :
        (id : Text)
        → text_eq x.id id ≡ true
        → (claimed (find id won.rows) ≡ true)
          × (fresh (times_handed id s.handed) (find id won.rows) ≡ true)
    ours id same =
        let same_id : x.id ≡ id = (text_eq_iff x.id id).0 same in
        rw (sym same_id, won-find x.id)
          (taken-own m (times_handed x.id s.handed) x.id s.rows takes (ok_s.tally x.id))

    -- An entry that is acquired is held by its instance alone.
    pub wins-IsConsistent : IsConsistent m won
    wins-IsConsistent = record {
      keyed = λ id. ground (arith, won-key id, ok_s.keyed id);
      tally = λ id.
          rw (won-find id)
            (taken-Tally m (times_handed id s.handed) x.id (find id s.rows) (ok_s.tally id));
      held = λ j id h. elim (at_cases i (holding x rest) s.phase j) [
        | inl (same, eq) ↦ (ours id (ap (λ q. holds q id) (sym eq) ∙ h)).0
        | inr (other, eq) ↦ rw (won-find id) (
            taken-claimed m 0 x.id (find id s.rows)
              (ok_s.held j id (ap (λ q. holds q id) (sym eq) ∙ h)))
      ];
      unsent = λ j id h. elim (at_cases i (holding x rest) s.phase j) [
        | inl (same, eq) ↦ (ours id (ap (λ q. unpublished q id) (sym eq) ∙ h)).1
        | inr (other, eq) ↦ rw (won-find id) (
            taken-fresh m (times_handed id s.handed) x.id (find id s.rows)
              (ok_s.unsent j id (ap (λ q. unpublished q id) (sym eq) ∙ h)))
      ];
      apart =
          at_alone i (holding x rest) s.phase (λ j id same h. absurd (not_held j id same h))
            ok_s.apart;
    }
