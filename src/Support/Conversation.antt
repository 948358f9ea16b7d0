-- ===== src/Support/Conversation.antt =====
-- getConversation of src/modules/support/support.service.ts: the thread at the receiver, merged with
-- the kept messages that are not in it yet. The fields of an answer, the printed form of a time and
-- the comparison of printed times are parameters.
pub mod Merged
mod Tests
use app_tu_phuc_vu.Prelude.{
  ℕ, Bool, not, Option, none, some, List, [], ◌∷◌, ◌++◌, map, keep, any, or_else, if◌then◌else◌,
  Result, ok, err,
}
use app_tu_phuc_vu.Prelude.Text.{Text, codes, text_eq}
use app_tu_phuc_vu.Inbound.{claimed, result}
use app_tu_phuc_vu.Ports.Types.{plain, entry, Value, PortException, PortResult, PortEnv}
use app_tu_phuc_vu.Ports.Registry.{PortRegistry}
use app_tu_phuc_vu.Ports.Degraded.{PortCall}
use app_tu_phuc_vu.Ports.Execute.{execute}
use app_tu_phuc_vu.Support.Outbox.{ChatRow, by_created_at}

pub data Direction : Type 0 where
  inbound outbound : Direction

pub data SenderType : Type 0 where
  customer agent bot system : SenderType

pub record ChatMessage : Type 0 where
  pub id : Text
  pub content : Text
  pub direction : Direction
  pub sender_type : SenderType
  pub created_at : Text

pub record Conversation : Type 0 where
  pub conversation_id : Option Text
  pub messages : List ChatMessage

pub record ConversationEnv : Type 1 where
  pub ports : PortEnv
  pub context : ports.Context
  pub params_of : Text → ports.Params
  pub messages_of : ports.Data → Option (List ChatMessage)
  pub conversation_of : ports.Data → Option Text
  pub to_iso : ℕ → Text
  pub is_not_after : Text → Text → Bool

abbrev pub has_id : Text → ChatMessage → Bool
has_id id message = text_eq message.id id

-- The rows of a user, in the order of their creation.
abbrev pub rows_of : Text → List ChatRow → List ChatRow
rows_of user_id rows = by_created_at (keep (λ row. text_eq row.user_id user_id) rows)

module _ (e : ConversationEnv) where
  -- Array.prototype.sort is stable.
  unfoldable pub insert_message : ChatMessage → List ChatMessage → List ChatMessage
  insert_message message [] = message ∷ []
  insert_message message (other ∷ messages) =
      let rest = insert_message message messages in
      if e.is_not_after message.created_at other.created_at
      then message ∷ other ∷ messages
      else other ∷ rest

  unfoldable pub sorted : List ChatMessage → List ChatMessage
  unfolding insert_message
  sorted [] = []
  sorted (message ∷ messages) = insert_message message (sorted messages)

  abbrev pub local_message : ChatRow → ChatMessage
  local_message row = record {
    id = row.message_id;
    content = row.text;
    direction = inbound;
    sender_type = customer;
    created_at = e.to_iso row.created_at;
  }

  -- The rows whose message the server does not have.
  abbrev pub local_messages : List ChatMessage → List ChatRow → List ChatMessage
  local_messages server rows =
      map local_message (keep (λ row. not (any (has_id row.message_id) server)) rows)

  -- `r?.data`: only an answer of the adapter has the fields.
  abbrev pub data_of : Option (Value e.ports.Data) → Option e.ports.Data
  data_of none = none
  data_of (some claimed) = none
  data_of (some (result (plain d))) = some d
  data_of (some (result (entry d t))) = none

  abbrev pub server_messages : Option e.ports.Data → List ChatMessage
  server_messages none = []
  server_messages (some d) = or_else (e.messages_of d) []

  abbrev pub server_id : Option e.ports.Data → Option Text
  server_id none = none
  server_id (some d) = e.conversation_of d

  abbrev pub merged : List ChatMessage → List ChatRow → List ChatMessage
  merged server rows = sorted (server ++ local_messages server rows)

  abbrev pub on_reply :
      Text
      → List ChatRow
      → Result (PortException e.ports.JobId) (PortResult e.ports.Data)
      → Result (PortException e.ports.JobId) Conversation
  on_reply user_id rows (err error) = err error
  on_reply user_id rows (ok x) = ok (record {
    conversation_id = server_id (data_of x.answer);
    messages = merged (server_messages (data_of x.answer)) (rows_of user_id rows);
  })

  abbrev pub conversation_call : Text → PortCall e.ports
  conversation_call user_id = record {
    port_name = codes "cskh-chat";
    method = codes "get-conversation";
    params = e.params_of user_id;
    idempotency_key = none;
    context = e.context;
  }

  unfoldable pub get_conversation :
      ℕ
      → Text
      → List ChatRow
      → PortRegistry e.ports
      → Result (PortException e.ports.JobId) Conversation × PortRegistry e.ports
  unfolding execute sorted by_created_at
  get_conversation now user_id rows registry =
      let (reply, registry') = execute e.ports now now (conversation_call user_id) registry in
      (on_reply user_id rows reply, registry')
