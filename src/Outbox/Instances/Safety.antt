-- ===== src/Outbox/Instances/Safety.antt =====
-- What holds of every interleaving of the outbox processors
-- (src/libs/shared/database/outbox/outbox-processor.service.ts).
use app_tu_phuc_vu.Prelude.{
  ◌≢◌, false, ℕ, ◌≤◌, true, not, ◌≡◌, inl, inr, Bool-cases, ap, sym, ◌∙◌, refl, Option, none, some,
  List, [], ◌∷◌, arith,
}
use app_tu_phuc_vu.Prelude.Text.{Text, text_eq, text_eq_iff}
use app_tu_phuc_vu.Outbox.Repository.{
  Event, Codec, Row, pending, is_old, is_retriable, add, reset_for_retry, delete_processed,
}
use app_tu_phuc_vu.Outbox.Repository.Finding.{
  unknown_before, find, touched, kept, find-update_where, IsKeyed-update_where, find-add,
  IsKeyed-add, count-keep, find-keep,
}
use app_tu_phuc_vu.Outbox.Processor.{OutboxConfig, EventBus}
use app_tu_phuc_vu.Outbox.Instances.{
  Phase, idle, working, delivered, broken, System, at, times_handed, Step, Reaches, here, then_step,
  adds, polls, wins, loses, publishes, throws_out, unreadable, completes, fails, ends, cleans,
  stops,
}
use app_tu_phuc_vu.Outbox.Instances.Invariant.{
  holds, unpublished, at_quiet, claimed, Tally, IsConsistent, quiet,
}
use app_tu_phuc_vu.Outbox.Instances.Invariant.Acquire.{wins-IsConsistent}
use app_tu_phuc_vu.Outbox.Instances.Invariant.Publish.{handed-IsConsistent}
use app_tu_phuc_vu.Outbox.Instances.Invariant.Settle.{completes-IsConsistent, fails-IsConsistent}

module _ (m : ℕ) where
  reset-Tally :
      (n : ℕ) (o : Option Row)
      → Tally m n o
      → Tally m n (touched (is_retriable m) (λ r. record r { status = pending }) o)
  reset-Tally n none t = t
  reset-Tally n (some r) t = ground arith

  reset_keeps :
      (o : Option Row)
      → claimed o ≡ true
      → touched (is_retriable m) (λ r. record r { status = pending }) o ≡ o
  reset_keeps none h = absurd (cc)
  reset_keeps (some r) h = ground arith

  clean-Tally :
      (older_than n : ℕ) (o : Option Row)
      → Tally m n o
      → Tally m n (kept (λ r. not (is_old older_than r)) o)
  clean-Tally older_than n none t = t
  clean-Tally older_than n (some r) t = ground arith

  clean_keeps :
      (older_than : ℕ) (o : Option Row)
      → claimed o ≡ true
      → kept (λ r. not (is_old older_than r)) o ≡ o
  clean_keeps older_than none h = absurd (cc)
  clean_keeps older_than (some r) h = ground arith

  module _ {b : EventBus} (s : System b) (ok_s : IsConsistent m s) where
    -- An instance moves on without an entry.
    moves-IsConsistent :
        (i : ℕ) (p : Phase)
        → ((id : Text) → holds p id ≡ true → holds (s.phase i) id ≡ true)
        → ((id : Text) → unpublished p id ≡ true → unpublished (s.phase i) id ≡ true)
        → IsConsistent m (record s { phase = at i p s.phase })
    moves-IsConsistent i p own unsent =
        quiet m s (record s { phase = at i p s.phase }) ok_s refl ok_s.keyed ok_s.tally
          (λ id h. refl) (at_quiet holds i p s.phase own) (at_quiet unpublished i p s.phase unsent)

    adds-IsConsistent :
        (c : Codec) (now : ℕ) (x : Event) (rows : List Row)
        → 1 ≤ m
        → times_handed x.event_id s.handed ≡ 0
        → add c now x s.rows ≡ some rows
        → IsConsistent m (record s { rows = rows })
    adds-IsConsistent c now x rows le new added =
        quiet m s (record s { rows = rows }) ok_s refl
          (IsKeyed-add c now x s.rows rows added ok_s.keyed)
          (λ id. elim (Bool-cases (text_eq x.event_id id)) [
            | inl same ↦
                let same_id : x.event_id ≡ id = (text_eq_iff x.event_id id).0 same in
                let zero : times_handed id s.handed ≡ 0 = rw (sym same_id) new in
                rw (find-add c now x s.rows rows id added, same, zero) (omega arith, omega arith)
            | inr other ↦ rw (find-add c now x s.rows rows id added, other) (ok_s.tally id)
          ])
          (λ id h. elim (Bool-cases (text_eq x.event_id id)) [
            | inl same ↦
                let same_id : x.event_id ≡ id = (text_eq_iff x.event_id id).0 same in
                let missing : find id s.rows ≡ none =
                  rw (sym same_id) (unknown_before c now x s.rows rows added) in
                absurd (ground (arith, missing))
            | inr other ↦ rw (find-add c now x s.rows rows id added, other) refl
          ])
          (λ i id h. h) (λ i id h. h)

    ends-IsConsistent :
        (i : ℕ)
        → IsConsistent m
            (record s { rows = (reset_for_retry m s.rows).1; phase = at i idle s.phase })
    unfolding reset_for_retry
    ends-IsConsistent i =
        let change = λ (r : Row). record r { status = pending } in
        let found =
          λ (id : Text). find-update_where (is_retriable m) change (λ r. refl) id s.rows in
        quiet m s (record s { rows = (reset_for_retry m s.rows).1; phase = at i idle s.phase }) ok_s
          refl
          (λ id. ground (
            arith,
            IsKeyed-update_where (is_retriable m) change (λ r. refl) id s.rows,
            ok_s.keyed id,
          ))
          (λ id.
            rw (found id) (reset-Tally (times_handed id s.handed) (find id s.rows) (ok_s.tally id)))
          (λ id h. found id ∙ reset_keeps (find id s.rows) h)
          (at_quiet holds i idle s.phase (λ id h. absurd (cc)))
          (at_quiet unpublished i idle s.phase (λ id h. absurd (cc)))

    cleans-IsConsistent :
        (older_than : ℕ)
        → IsConsistent m (record s { rows = (delete_processed older_than s.rows).1 })
    unfolding delete_processed
    cleans-IsConsistent older_than =
        let p = λ (r : Row). not (is_old older_than r) in
        let found = λ (id : Text). find-keep p id s.rows (ok_s.keyed id) in
        quiet m s (record s { rows = (delete_processed older_than s.rows).1 }) ok_s refl
          (λ id. ground (arith, count-keep p id s.rows, ok_s.keyed id))
          (λ id.
            rw (found id)
              (clean-Tally older_than (times_handed id s.handed) (find id s.rows) (ok_s.tally id)))
          (λ id h. found id ∙ clean_keeps older_than (find id s.rows) h) (λ i id h. h) (λ i id h. h)

module _ (c : Codec) (b : EventBus) (config : OutboxConfig) (le : 1 ≤ config.max_retries) where
  Step-IsConsistent :
      (s t : System b)
      → Step c b config s t
      → IsConsistent config.max_retries s
      → IsConsistent config.max_retries t
  Step-IsConsistent s t (adds _ now x rows new added) ok_s =
      adds-IsConsistent config.max_retries s ok_s c now x rows le new added
  Step-IsConsistent s t (polls _ i x rest was got) ok_s =
      moves-IsConsistent config.max_retries s ok_s i (working (x ∷ rest)) (λ id h. absurd (cc))
        (λ id h. absurd (cc))
  Step-IsConsistent s t (wins _ i x rest was acquired) ok_s =
      wins-IsConsistent config.max_retries s ok_s i x rest acquired
  Step-IsConsistent s t (loses _ i x rest was lost) ok_s =
      moves-IsConsistent config.max_retries s ok_s i (working rest) (λ id h. absurd (cc))
        (λ id h. absurd (cc))
  Step-IsConsistent s t (publishes _ i x rest event was read sent) ok_s =
      handed-IsConsistent config.max_retries s ok_s i x rest was (b.publish event s.bus).1
        (delivered x rest) (λ id h. h) (λ id. refl)
  Step-IsConsistent s t (throws_out _ i x rest event error was read thrown) ok_s =
      handed-IsConsistent config.max_retries s ok_s i x rest was (b.publish event s.bus).1
        (broken x error rest) (λ id h. h) (λ id. refl)
  Step-IsConsistent s t (unreadable _ i x rest error was unread) ok_s =
      moves-IsConsistent config.max_retries s ok_s i (broken x error rest)
        (λ id h. ap (λ q. holds q id) was ∙ h) (λ id h. absurd (cc))
  Step-IsConsistent s t (completes _ i now x rest was) ok_s =
      completes-IsConsistent config.max_retries s ok_s i x rest
        (λ id h. ap (λ q. holds q id) was ∙ h) now
  Step-IsConsistent s t (fails _ i x error rest was) ok_s =
      fails-IsConsistent config.max_retries s ok_s i x rest (λ id h. ap (λ q. holds q id) was ∙ h)
        error
  Step-IsConsistent s t (ends _ i was) ok_s = ends-IsConsistent config.max_retries s ok_s i
  Step-IsConsistent s t (cleans _ older_than) ok_s =
      cleans-IsConsistent config.max_retries s ok_s older_than
  Step-IsConsistent s t (stops _ i) ok_s =
      moves-IsConsistent config.max_retries s ok_s i idle (λ id h. absurd (cc))
        (λ id h. absurd (cc))

  Reaches-IsConsistent :
      (s t : System b)
      → Reaches c b config s t
      → IsConsistent config.max_retries s
      → IsConsistent config.max_retries t
  Reaches-IsConsistent s t (here _) ok_s = ok_s
  Reaches-IsConsistent s t (then_step _ u _ run step) ok_s =
      Step-IsConsistent u t step (Reaches-IsConsistent s u run ok_s)

  -- An empty table, and every instance between polls.
  abbrev pub started : b.Bus → System b
  started bus = record { rows = []; bus = bus; handed = []; phase = λ i. idle }

  started-IsConsistent : (bus : b.Bus) → IsConsistent config.max_retries (started bus)
  unfolding find
  started-IsConsistent bus = record {
    keyed = λ id. omega arith;
    tally = λ id. omega arith;
    held = λ i id h. absurd (cc);
    unsent = λ i id h. absurd (cc);
    apart = λ i j id hᵢ hⱼ. absurd (cc);
  }

  -- However the instances interleave, and wherever they stop, while one of them holds an entry no
  -- other does, where maxRetries is at least 1.
  pub one_holder :
      (bus : b.Bus) (s : System b) (i j : ℕ) (id : Text)
      → Reaches c b config (started bus) s
      → i ≢ j
      → holds (s.phase i) id ≡ true
      → holds (s.phase j) id ≡ false
  one_holder bus s i j id run other held = elim (Bool-cases (holds (s.phase j) id)) [
    | inr free ↦ free
    | inl both ↦ absurd (
        other (
          (Reaches-IsConsistent (started bus) s run (started-IsConsistent bus)).apart i j id held
            both))
  ]

  Tally-le : (m n : ℕ) (o : Option Row) → Tally m n o → n ≤ m
  Tally-le m n none t = t
  Tally-le m n (some r) t = ground arith

  -- However the instances interleave, and wherever they stop, an event of its own id is handed to the
  -- bus at most `maxRetries` times, where that is at least 1.
  pub handed-le :
      (bus : b.Bus) (s : System b) (id : Text)
      → Reaches c b config (started bus) s
      → times_handed id s.handed ≤ config.max_retries
  handed-le bus s id run =
      Tally-le config.max_retries (times_handed id s.handed) (find id s.rows)
        ((Reaches-IsConsistent (started bus) s run (started-IsConsistent bus)).tally id)
