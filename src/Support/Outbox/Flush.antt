-- ===== src/Support/Outbox/Flush.antt =====
-- A flush of src/modules/support/chat-outbox.forwarder.ts, as a run over its batch.
use mathlib.Core.Path.{subst}
use app_tu_phuc_vu.Prelude.{
  ℕ, ◌+◌, ◌≡◌, ◌∙◌, refl, sym, ap, ◌⊎◌, inl, inr, Bool, true, false, Bool-cases, Option, none, some,
  List, [], ◌∷◌, map, any, length, if◌then◌else◌, Result, ok, err, arith,
}
use app_tu_phuc_vu.Prelude.Text.{Text, text_eq}
use app_tu_phuc_vu.Inbound.{claimed, result}
use app_tu_phuc_vu.Ports.Types.{plain, entry, Value, PortException, PortResult}
use app_tu_phuc_vu.Ports.Registry.{PortRegistry}
use app_tu_phuc_vu.Ports.Execute.{execute}
use app_tu_phuc_vu.Support.Outbox.{
  ChatRow, pending, mark_forwarded, ForwarderEnv, Forwarder, wire_reachable, chat_call, is_sent,
  noted, delivered, forward_row, forward_all, on_probe, flush_once,
}
use app_tu_phuc_vu.Support.Outbox.Batch.{IsBatch, pending-IsBatch}

-- The rows with one of the ids get the time, and all else stays.
abbrev pub marked : ℕ → List Text → ChatRow → ChatRow
marked now ids row =
    if any (text_eq row.message_id) ids then record row { forwarded_at = some now } else row

marked_none : (now : ℕ) (rows : List ChatRow) → map (marked now []) rows ≡ rows
marked_none now [] = refl
marked_none now (row ∷ rows) = ap (λ xs. row ∷ xs) (marked_none now rows)

marked_more :
    (now : ℕ) (id : Text) (ids : List Text) (rows : List ChatRow)
    → map (marked now ids) (mark_forwarded now id rows) ≡ map (marked now (id ∷ ids)) rows
unfolding mark_forwarded
marked_more now id ids [] = refl
marked_more now id ids (row ∷ rows) =
    let rest = marked_more now id ids rows in
    elim (Bool-cases (text_eq row.message_id id)) [
      | inl own ↦ elim (Bool-cases (any (text_eq row.message_id) ids)) [
        | inl again ↦ rw (own, again, rest) refl
        | inr once ↦ rw (own, once, rest) refl
      ]
      | inr differs ↦ rw (differs, rest) refl
    ]

module _ (e : ForwarderEnv) where
  -- The port's answer says that the message was sent.
  pub record IsSent (reply : Result (PortException e.ports.JobId) (PortResult e.ports.Data))
      : Type 0 where
    pub port_result : PortResult e.ports.Data
    pub data_sent : e.ports.Data
    pub answered : reply ≡ ok port_result
    pub plainly : port_result.answer ≡ some (result (plain data_sent))
    pub sent : e.sent data_sent ≡ true

  -- One message after the other goes through the port, and the ids are of those that were sent.
  pub data IsRun (now : ℕ)
      : List ChatRow → PortRegistry e.ports → List Text → PortRegistry e.ports → Type 0 where
    finished : (r : PortRegistry e.ports) → IsRun now [] r [] r
    forwarded :
        (row : ChatRow) (batch : List ChatRow) (r r' : PortRegistry e.ports) (ids : List Text)
        → IsSent (execute e.ports now now (chat_call e row) r).0
        → IsRun now batch (execute e.ports now now (chat_call e row) r).1 ids r'
        → IsRun now (row ∷ batch) r (row.message_id ∷ ids) r'
    waiting :
        (row : ChatRow) (batch : List ChatRow) (r r' : PortRegistry e.ports) (ids : List Text)
        → (IsSent (execute e.ports now now (chat_call e row) r).0 → ⊥)
        → IsRun now batch (execute e.ports now now (chat_call e row) r).1 ids r'
        → IsRun now (row ∷ batch) r ids r'

  is_sent-plain :
      (x : PortResult e.ports.Data) (answer : Option (Value e.ports.Data))
      → x.answer ≡ answer
      → is_sent e answer ≡ true
      → IsSent (ok x)
  is_sent-plain x none same h = absurd (cc)
  is_sent-plain x (some claimed) same h = absurd (cc)
  is_sent-plain x (some (result (plain d))) same h = record {
    port_result = x;
    data_sent = d;
    answered = refl;
    plainly = same;
    sent = h;
  }
  is_sent-plain x (some (result (entry d t))) same h = absurd (cc)

  delivered-IsSent :
      (reply : Result (PortException e.ports.JobId) (PortResult e.ports.Data))
      → delivered e reply ≡ true
      → IsSent reply
  delivered-IsSent (ok x) h = is_sent-plain x x.answer refl h
  delivered-IsSent (err error) h = absurd (cc)

  IsSent-delivered :
      (reply : Result (PortException e.ports.JobId) (PortResult e.ports.Data))
      → IsSent reply
      → delivered e reply ≡ true
  IsSent-delivered reply h = rw (h.answered, h.plainly) h.sent

  -- A run over the batch, with the count from `from` on and the state after it.
  pub record IsFlush (now : ℕ) (batch : List ChatRow) (s : Forwarder e) (from count : ℕ)
      (s' : Forwarder e) : Type 0 where
    pub ids : List Text
    pub registry : PortRegistry e.ports
    pub run : IsRun now batch s.registry ids registry
    pub counted : count ≡ from + length ids
    pub state : s' ≡ record s { rows = map (marked now ids) s.rows; registry = registry }

  step-IsFlush :
      (now : ℕ) (row : ChatRow) (batch : List ChatRow) (n count : ℕ) (s s' : Forwarder e)
      (sent : Bool)
      → delivered e (execute e.ports now now (chat_call e row) s.registry).0 ≡ sent
      → IsFlush now batch
          (record s {
            rows = noted now row.message_id sent s.rows;
            registry = (execute e.ports now now (chat_call e row) s.registry).1;
          })
          (if sent then n + 1 else n)
          count
          s'
      → IsFlush now (row ∷ batch) s n count s'
  step-IsFlush now row batch n count s s' true done f = record {
    ids = row.message_id ∷ f.ids;
    registry = f.registry;
    run = forwarded row batch s.registry f.registry f.ids (delivered-IsSent _ done) f.run;
    counted = omega (arith, f.counted);
    state =
        f.state
        ∙ ap (λ rows. record s { rows = rows; registry = f.registry })
            (marked_more now row.message_id f.ids s.rows);
  }
  step-IsFlush now row batch n count s s' false failed f = record {
    ids = f.ids;
    registry = f.registry;
    run =
        waiting row batch s.registry f.registry f.ids (λ h. absurd (cc (IsSent-delivered _ h)))
          f.run;
    counted = f.counted;
    state = f.state;
  }

  forward_all-IsFlush :
      (now : ℕ) (batch : List ChatRow) (n : ℕ) (s : Forwarder e)
      → IsFlush now batch s n (forward_all e now batch n s).0 (forward_all e now batch n s).1
  unfolding forward_all forward_row
  forward_all-IsFlush now [] n s = record {
    ids = [];
    registry = s.registry;
    run = finished s.registry;
    counted = omega arith;
    state = ap (λ rows. record s { rows = rows }) (sym (marked_none now s.rows));
  }
  forward_all-IsFlush now (row ∷ batch) n s =
      step-IsFlush now row batch n _ s _ _ refl (forward_all-IsFlush now batch _ _)

  wire_reachable-rows : (now : ℕ) (s : Forwarder e) → (wire_reachable e now s).1.rows ≡ s.rows
  wire_reachable-rows now s = ground arith

  on_probe-IsFlush :
      (now : ℕ) (probe : Bool × Forwarder e)
      → ((probe.0 ≡ false) × (on_probe e now probe ≡ (0, probe.1)))
        ⊎ ((probe.0 ≡ true)
            × IsFlush now
                (pending probe.1.rows)
                probe.1
                0
                (on_probe e now probe).0
                (on_probe e now probe).1)
  on_probe-IsFlush now (true, s) = inr (refl, forward_all-IsFlush now (pending s.rows) 0 s)
  on_probe-IsFlush now (false, s) = inl (refl, refl)

  -- A flush does nothing after a probe that does not find the receiver. After one that does, it sends
  -- a batch through the port, each message once and in order: the rows with no time of delivery,
  -- oldest first and 50 at most. It marks the rows of exactly those messages of which the port's
  -- answer says that they were sent, with the time of the flush, counts these messages, and changes
  -- nothing else but the registry.
  pub flush_once-IsFlush :
      (now : ℕ) (s : Forwarder e)
      → (((wire_reachable e now s).0 ≡ false)
          × (flush_once e now s ≡ (0, (wire_reachable e now s).1)))
        ⊎ (((wire_reachable e now s).0 ≡ true)
            × ((batch : List ChatRow) × IsBatch s.rows batch
                × IsFlush now batch
                    (wire_reachable e now s).1
                    0
                    (flush_once e now s).0
                    (flush_once e now s).1))
  unfolding flush_once
  flush_once-IsFlush now s = elim (on_probe-IsFlush now (wire_reachable e now s)) [
    | inl quiet ↦ inl quiet
    | inr (reached, f) ↦ inr (
      reached,
      (
        pending (wire_reachable e now s).1.rows,
        subst (λ rows. IsBatch rows (pending (wire_reachable e now s).1.rows))
            (wire_reachable-rows now s) (pending-IsBatch (wire_reachable e now s).1.rows),
        f,
      ),
    )
  ]
