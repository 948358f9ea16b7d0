-- ===== src/Support/Conversation/Tests.antt =====
-- A thread of two messages and two kept rows (src/modules/support/support.service.ts).
use app_tu_phuc_vu.Prelude.{
  ℕ, ◌≡◌, refl, Bool, true, false, leb, none, some, List, [], ◌∷◌, ok, arith,
}
use app_tu_phuc_vu.Prelude.Text.{Text, codes, text_eq}
use app_tu_phuc_vu.Ports.Types.{live}
use app_tu_phuc_vu.Ports.Registry.{PortRegistry, register, answered}
use app_tu_phuc_vu.Ports.Execute.{execute}
use app_tu_phuc_vu.Ports.Sample.{env, service, no_overrides, unregistered, calls}
use app_tu_phuc_vu.Support.Outbox.{ChatRow, by_created_at, insert_row}
use app_tu_phuc_vu.Support.Conversation.{
  ChatMessage, Conversation, ConversationEnv, outbound, agent, inbound, customer, conversation_call,
  get_conversation, sorted, insert_message,
}
use app_tu_phuc_vu.Support.Conversation.Merged.{IsMerged, get_conversation-IsMerged}

-- Printed times are compared by their first character.
abbrev not_after : Text → Text → Bool
not_after [] b = true
not_after (c ∷ a) [] = false
not_after (c ∷ a) (d ∷ b) = leb c d

not_after-total : (a b : Text) → not_after a b ≡ false → not_after b a ≡ true
not_after-total [] b h = absurd (cc)
not_after-total (c ∷ a) [] h = refl
not_after-total (c ∷ a) (d ∷ b) h = ground arith

abbrev of_user : Text → ℕ → ChatMessage
of_user id t = record {
  id = id;
  content = codes "hi";
  direction = inbound;
  sender_type = customer;
  created_at = t ∷ [];
}

abbrev of_agent : ChatMessage
of_agent = record {
  id = codes "s1";
  content = codes "hello";
  direction = outbound;
  sender_type = agent;
  created_at = 30 ∷ [];
}

abbrev thread : List ChatMessage
thread = of_user (codes "m1") 10 ∷ of_agent ∷ []

abbrev view : ConversationEnv
view = record {
  ports = env;
  context = 1;
  params_of = λ user_id. 7;
  messages_of = λ d. some thread;
  conversation_of = λ d. none;
  to_iso = λ t. t ∷ [];
  is_not_after = not_after;
}

abbrev row : Text → ℕ → ChatRow
row id t = record {
  message_id = id;
  user_id = codes "u1";
  text = codes "hi";
  created_at = t;
  forwarded_at = none;
}

abbrev rows : List ChatRow
rows = row (codes "m1") 10 ∷ row (codes "m2") 20 ∷ []

unfoldable start : PortRegistry env
unfolding calls
start = register env 0 (codes "cskh-chat") service service no_overrides unregistered

abbrev after : PortRegistry env
unfolding calls start
after = (execute env 5 5 (conversation_call view (codes "u1")) start).1

get_conversation-IsMerged_example :
    (c : Conversation) × ((get_conversation view 5 (codes "u1") rows start).0 ≡ ok c)
    × IsMerged view not_after-total (codes "u1") rows thread c
unfolding calls start
get_conversation-IsMerged_example =
    get_conversation-IsMerged view not_after-total 5 (codes "u1") rows start after
      (answered env live 107) refl

-- The message that the thread has is shown once.
shown_test :
    (get_conversation view 5 (codes "u1") rows start).0
    ≡ ok (record {
      conversation_id = none;
      messages = of_user (codes "m1") 10 ∷ of_user (codes "m2") 20 ∷ of_agent ∷ [];
    })
unfolding calls start get_conversation sorted insert_message by_created_at insert_row text_eq
shown_test = refl
