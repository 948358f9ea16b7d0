-- ===== src/Support/Conversation/Merged.antt =====
-- Which messages a conversation of src/modules/support/support.service.ts shows.
use app_tu_phuc_vu.Prelude.{
  ℕ, ◌+◌, ◌≡◌, refl, ap, ◌∙◌, not, Bool, true, false, ◌&&◌, Bool-cases, inl, inr, List, [], ◌∷◌,
  ◌++◌, keep, any, count_if, count_if-append, ok, arith,
}
use app_tu_phuc_vu.Prelude.Text.{Text, text_eq}
use app_tu_phuc_vu.Ports.Types.{PortResult}
use app_tu_phuc_vu.Ports.Registry.{PortRegistry}
use app_tu_phuc_vu.Ports.Execute.{execute}
use app_tu_phuc_vu.Support.Outbox.{ChatRow, by_created_at}
use app_tu_phuc_vu.Support.Outbox.Batch.{count_if-by_created_at, count_if-keep}
use app_tu_phuc_vu.Support.Conversation.{
  inbound, customer, ChatMessage, Conversation, ConversationEnv, has_id, rows_of, insert_message,
  sorted, local_messages, data_of, server_messages, server_id, merged, conversation_call,
  get_conversation,
}

module _ (e : ConversationEnv) where
  count_if-insert_message :
      (p : ChatMessage → Bool) (message : ChatMessage) (messages : List ChatMessage)
      → count_if p (insert_message e message messages) ≡ count_if p (message ∷ messages)
  unfolding insert_message
  count_if-insert_message p message [] = refl
  count_if-insert_message p message (other ∷ messages) =
      ground (arith, count_if-insert_message p message messages)

  count_if-sorted :
      (p : ChatMessage → Bool) (messages : List ChatMessage)
      → count_if p (sorted e messages) ≡ count_if p messages
  unfolding sorted
  count_if-sorted p [] = refl
  count_if-sorted p (message ∷ messages) =
      ground
        (arith, count_if-sorted p messages, count_if-insert_message p message (sorted e messages))

  -- A kept row as a message: what the customer wrote, at the printed time of the row.
  abbrev pub shows : (ChatMessage → Bool) → ChatRow → Bool
  shows p row = p (record {
    id = row.message_id;
    content = row.text;
    direction = inbound;
    sender_type = customer;
    created_at = e.to_iso row.created_at;
  })

  -- Rows of a message that the server has are left out, and others stay.
  count_if-local :
      (p : ChatMessage → Bool) (server : List ChatMessage) (rows : List ChatRow)
      → count_if p (local_messages e server rows)
        ≡ count_if (λ row. shows p row && not (any (has_id row.message_id) server)) rows
  count_if-local p server [] = refl
  count_if-local p server (row ∷ rows) = ground (arith, count_if-local p server rows)

  -- Each message is printed no later than the next one.
  abbrev pub IsBefore : ChatMessage → List ChatMessage → Type 0
  IsBefore message [] = Unit
  IsBefore message (other ∷ messages) = e.is_not_after message.created_at other.created_at ≡ true

  abbrev pub IsOrdered : List ChatMessage → Type 0
  IsOrdered [] = Unit
  IsOrdered (message ∷ messages) = IsBefore message messages × IsOrdered messages

  module _ (total : (a b : Text) → e.is_not_after a b ≡ false → e.is_not_after b a ≡ true) where
    IsBefore-insert :
        (first message : ChatMessage) (messages : List ChatMessage)
        → IsBefore first messages
        → e.is_not_after first.created_at message.created_at ≡ true
        → IsBefore first (insert_message e message messages)
    unfolding insert_message
    IsBefore-insert first message [] h h' = h'
    IsBefore-insert first message (other ∷ messages) h h' = ground arith

    insert_message-IsOrdered :
        (message : ChatMessage) (messages : List ChatMessage)
        → IsOrdered messages
        → IsOrdered (insert_message e message messages)
    unfolding insert_message
    insert_message-IsOrdered message [] h = (tt, tt)
    insert_message-IsOrdered message (other ∷ messages) h =
        elim (Bool-cases (e.is_not_after message.created_at other.created_at)) [
          | inl early ↦ rw early (early, h)
          | inr late ↦ rw late (
            IsBefore-insert other message messages h.0
                (total message.created_at other.created_at late),
            insert_message-IsOrdered message messages h.1,
          )
        ]

    sorted-IsOrdered : (messages : List ChatMessage) → IsOrdered (sorted e messages)
    unfolding sorted
    sorted-IsOrdered [] = tt
    sorted-IsOrdered (message ∷ messages) =
        insert_message-IsOrdered message (sorted e messages) (sorted-IsOrdered messages)

    -- What a conversation shows, by any test on messages: the server's messages, and of the user's
    -- rows those whose message the server does not have, with their fields; in the order of the times.
    pub record IsMerged (user_id : Text) (rows : List ChatRow) (server : List ChatMessage)
        (c : Conversation) : Type 0 where
      pub counted :
          (p : ChatMessage → Bool)
          → count_if p c.messages
            ≡ count_if p server
              + count_if
                  (λ row.
                    (shows p row && not (any (has_id row.message_id) server))
                    && text_eq row.user_id user_id)
                  rows
      pub ordered : IsOrdered c.messages

    merged-counted :
        (user_id : Text) (rows : List ChatRow) (server : List ChatMessage) (p : ChatMessage → Bool)
        → count_if p (merged e server (rows_of user_id rows))
          ≡ count_if p server
            + count_if
                (λ row.
                  (shows p row && not (any (has_id row.message_id) server))
                  && text_eq row.user_id user_id)
                rows
    merged-counted user_id rows server p =
        let mine = keep (λ (row : ChatRow). text_eq row.user_id user_id) rows in
        let is_shown = λ (row : ChatRow). shows p row && not (any (has_id row.message_id) server) in
        let all_of = count_if-sorted p (server ++ local_messages e server (by_created_at mine)) in
        let parts = count_if-append p server (local_messages e server (by_created_at mine)) in
        let locals = count_if-local p server (by_created_at mine) in
        let ordered = count_if-by_created_at is_shown mine in
        let kept = count_if-keep is_shown (λ row. text_eq row.user_id user_id) rows in
        all_of ∙ parts ∙ ap (λ n. count_if p server + n) (locals ∙ ordered ∙ kept)

    -- Where the port answers, a user sees every message of the thread, and every kept message of the
    -- user that the thread does not have yet, each as often as it is there and ordered by time, a kept
    -- one with its id and text, as inbound from the customer, at the printed time of its row; for a
    -- comparison of times that is total.
    pub get_conversation-IsMerged :
        (now : ℕ) (user_id : Text) (rows : List ChatRow) (registry registry' : PortRegistry e.ports)
        (x : PortResult e.ports.Data)
        → execute e.ports now now (conversation_call e user_id) registry ≡ (ok x, registry')
        → (c : Conversation) × ((get_conversation e now user_id rows registry).0 ≡ ok c)
          × IsMerged user_id rows (server_messages e (data_of e x.answer)) c
    unfolding get_conversation
    get_conversation-IsMerged now user_id rows registry registry' x h =
        let server = server_messages e (data_of e x.answer) in
        (
          record {
            conversation_id = server_id e (data_of e x.answer);
            messages = merged e server (rows_of user_id rows);
          },
          rw h refl,
          record {
            counted = merged-counted user_id rows server;
            ordered = sorted-IsOrdered (server ++ local_messages e server (rows_of user_id rows));
          },
        )
