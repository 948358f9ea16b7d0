-- ===== src/Support/Outbox.antt =====
-- sendMessage of src/modules/support/support.service.ts and flushOnce of
-- src/modules/support/chat-outbox.forwarder.ts, over the port registry. A row of the table is a
-- record; the statements succeed. The probe of the receiver is a parameter, and so are the context
-- of the timer, the parameters object of a row, and the field `sent` of an answer.
pub mod Delivery
pub mod Batch
pub mod Flush
use app_tu_phuc_vu.Prelude.{
  ℕ, ◌+◌, Bool, true, false, not, ◌&&◌, ltb, leb, Option, none, some, List, [], ◌∷◌, ◌++◌, keep,
  take, is_some, length, if◌then◌else◌, Result, ok, err,
}
use app_tu_phuc_vu.Prelude.Text.{Text, codes, text_eq}
use app_tu_phuc_vu.Inbound.{claimed, result}
use app_tu_phuc_vu.Ports.Types.{plain, entry, Value, PortException, PortResult, PortEnv}
use app_tu_phuc_vu.Ports.Registry.{PortRegistry}
use app_tu_phuc_vu.Ports.Degraded.{PortCall}
use app_tu_phuc_vu.Ports.Execute.{execute}

pub record ChatRow : Type 0 where
  pub message_id : Text
  pub user_id : Text
  pub text : Text
  pub created_at : ℕ
  pub forwarded_at : Option ℕ

abbrev pub flush_batch : ℕ
flush_batch = 50

abbrev pub probe_cache_ms : ℕ
probe_cache_ms = 30000

-- Rows in the order of their creation.
unfoldable pub insert_row : ChatRow → List ChatRow → List ChatRow
insert_row row [] = row ∷ []
insert_row row (other ∷ rows) =
    let rest = insert_row row rows in
    if leb row.created_at other.created_at then row ∷ other ∷ rows else other ∷ rest

unfoldable pub by_created_at : List ChatRow → List ChatRow
unfolding insert_row
by_created_at [] = []
by_created_at (row ∷ rows) = insert_row row (by_created_at rows)

abbrev pub is_pending : ChatRow → Bool
is_pending row = not (is_some row.forwarded_at)

abbrev pub pending : List ChatRow → List ChatRow
pending rows = take flush_batch (by_created_at (keep is_pending rows))

-- The update of the rows with an id.
unfoldable pub mark_forwarded : ℕ → Text → List ChatRow → List ChatRow
mark_forwarded now id [] = []
mark_forwarded now id (row ∷ rows) =
    (if text_eq row.message_id id then record row { forwarded_at = some now } else row)
    ∷ mark_forwarded now id rows

abbrev pub noted : ℕ → Text → Bool → List ChatRow → List ChatRow
noted now id sent rows = if sent then mark_forwarded now id rows else rows

abbrev pub is_some_text : Text → Bool
is_some_text [] = false
is_some_text (c ∷ text) = true

-- SendMessageSchema, with the length in code units.
abbrev pub accepts : Text → Text → Bool
accepts user_id text = is_some_text user_id && is_some_text text && leb (length text) 2000

-- What the forwarder runs on; `has_wire` tells whether the receiver's address is known.
pub record ForwarderEnv : Type 1 where
  pub ports : PortEnv
  pub context : ports.Context
  pub params_of : ChatRow → ports.Params
  pub sent : ports.Data → Bool
  pub has_wire : Bool
  pub probe : ports.World → Bool × ports.World

module _ (e : ForwarderEnv) where
  pub record Forwarder : Type 0 where
    pub rows : List ChatRow
    pub registry : PortRegistry e.ports
    pub probe_ok : Bool
    pub probe_at : ℕ

  abbrev pub probed : ℕ → Bool × e.ports.World → Forwarder → Bool × Forwarder
  probed now (reached, w) s = (
    reached,
    record s { registry = record (s.registry) { world = w }; probe_ok = reached; probe_at = now },
  )

  abbrev pub wire_reachable : ℕ → Forwarder → Bool × Forwarder
  wire_reachable now s =
      if not e.has_wire
      then (true, s)
      else if ltb now (s.probe_at + probe_cache_ms)
      then (s.probe_ok, s)
      else probed now (e.probe s.registry.world) s

  abbrev pub chat_call : ChatRow → PortCall e.ports
  chat_call row = record {
    port_name = codes "cskh-chat";
    method = codes "send-message";
    params = e.params_of row;
    idempotency_key = none;
    context = e.context;
  }

  -- `r?.data?.sent`: only an answer of the adapter has the field.
  abbrev pub is_sent : Option (Value e.ports.Data) → Bool
  is_sent none = false
  is_sent (some claimed) = false
  is_sent (some (result (plain d))) = e.sent d
  is_sent (some (result (entry d t))) = false

  abbrev pub delivered : Result (PortException e.ports.JobId) (PortResult e.ports.Data) → Bool
  delivered (ok x) = is_sent x.answer
  delivered (err error) = false

  unfoldable pub forward_row : ℕ → ChatRow → Forwarder → Bool × Forwarder
  unfolding execute
  forward_row now row s =
      let (reply, registry) = execute e.ports now now (chat_call row) s.registry in
      (
        delivered reply,
        record s { rows = noted now row.message_id (delivered reply) s.rows; registry = registry },
      )

  unfoldable pub forward_all : ℕ → List ChatRow → ℕ → Forwarder → ℕ × Forwarder
  unfolding forward_row
  forward_all now [] forwarded s = (forwarded, s)
  forward_all now (row ∷ rows) forwarded s =
      let (sent, s') = forward_row now row s in
      forward_all now rows (if sent then forwarded + 1 else forwarded) s'

  abbrev pub on_probe : ℕ → Bool × Forwarder → ℕ × Forwarder
  on_probe now (true, s) = forward_all now (pending s.rows) 0 s
  on_probe now (false, s) = (0, s)

  unfoldable pub flush_once : ℕ → Forwarder → ℕ × Forwarder
  unfolding forward_all by_created_at
  flush_once now s = on_probe now (wire_reachable now s)

  unfoldable pub send_message : ℕ → Text → Text → Text → Forwarder → Option Text × Forwarder
  send_message now id user_id text s =
      if accepts user_id text
      then (
        some id,
        record s {
          rows =
              s.rows
              ++ record {
                message_id = id;
                user_id = user_id;
                text = text;
                created_at = now;
                forwarded_at = none;
              }
                ∷ [];
        },
      )
      else (none, s)
