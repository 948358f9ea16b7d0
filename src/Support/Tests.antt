-- ===== src/Support/Tests.antt =====
-- Two messages through the sample registry: the second one fails (src/modules/support).
use app_tu_phuc_vu.Prelude.{
  ℕ, ◌≡◌, refl, true, false, ◌⊎◌, List, none, some, [], ◌∷◌, if◌then◌else◌,
}
use app_tu_phuc_vu.Prelude.Text.{Text, codes, text_eq}
use app_tu_phuc_vu.Inbound.{result}
use app_tu_phuc_vu.Ports.Types.{live, plain, degraded, PortResult, PortEntry}
use app_tu_phuc_vu.Ports.Registry.{PortRegistry, register, resolve_config, answered}
use app_tu_phuc_vu.Ports.Execute.{execute}
use app_tu_phuc_vu.Ports.Sample.{env, service, no_overrides, unregistered, calls}
use app_tu_phuc_vu.Support.Outbox.{
  ChatRow, mark_forwarded, ForwarderEnv, Forwarder, chat_call, forward_row, forward_all, flush_once,
  by_created_at, insert_row, send_message, wire_reachable,
}
use app_tu_phuc_vu.Support.Outbox.Delivery.{degraded-forwards}
use app_tu_phuc_vu.Support.Outbox.Batch.{IsBatch}
use app_tu_phuc_vu.Support.Outbox.Flush.{IsFlush, flush_once-IsFlush}

-- The message with the text "no" is the one that fails; every answer has been sent.
abbrev chat_env : ForwarderEnv
unfolding text_eq
chat_env = record {
  ports = env;
  context = 1;
  params_of = λ row. if text_eq row.text (codes "no") then 13 else 7;
  sent = λ d. true;
  has_wire = true;
  probe = λ w. (true, w);
}

abbrev chat : Text
chat = codes "cskh-chat"

unfoldable start : PortRegistry env
unfolding calls
start = register env 0 chat service service no_overrides unregistered

abbrev port : PortEntry env
port = record {
  mock_adapter = service;
  live_adapter = service;
  config = resolve_config env chat no_overrides;
}

abbrev message : Text → Text → ℕ → ChatRow
message id text t = record {
  message_id = id;
  user_id = codes "u1";
  text = text;
  created_at = t;
  forwarded_at = none;
}

abbrev first : ChatRow
first = message (codes "m1") (codes "yes") 10

abbrev second : ChatRow
second = message (codes "m2") (codes "no") 20

abbrev forwarder : Forwarder chat_env
unfolding start calls
forwarder = record { rows = second ∷ first ∷ []; registry = start; probe_ok = true; probe_at = 0 }

-- The second message is marked, too.
flush_test : (flush_once chat_env 40000 forwarder).0 ≡ 2
unfolding flush_once forward_all forward_row by_created_at insert_row mark_forwarded start calls
flush_test = refl

sent_test :
    (send_message chat_env 5 (codes "m3") (codes "u1") (codes "hi") forwarder).0 ≡ some (codes "m3")
unfolding send_message
sent_test = refl

flush_once-IsFlush_example :
    (((wire_reachable chat_env 40000 forwarder).0 ≡ false)
      × (flush_once chat_env 40000 forwarder ≡ (0, (wire_reachable chat_env 40000 forwarder).1)))
    ⊎ (((wire_reachable chat_env 40000 forwarder).0 ≡ true)
        × ((batch : List ChatRow) × IsBatch forwarder.rows batch
            × IsFlush chat_env 40000 batch
                (wire_reachable chat_env 40000 forwarder).1
                0
                (flush_once chat_env 40000 forwarder).0
                (flush_once chat_env 40000 forwarder).1))
flush_once-IsFlush_example = flush_once-IsFlush chat_env 40000 forwarder

abbrev after_first : Forwarder chat_env
unfolding start calls
after_first = record forwarder {
  registry = (execute env 1000 1200 (chat_call chat_env first) start).1;
}

abbrev stale : PortResult ℕ
stale = record {
  answer = some (result (plain 107));
  adapter_used = live;
  from_cache = true;
  metadata = degraded 3000;
}

degraded-forwards_example :
    ((forward_row chat_env 3000 second after_first).0 ≡ true)
    × ((forward_row chat_env 3000 second after_first).1.rows
        ≡ mark_forwarded 3000 (codes "m2") after_first.rows)
unfolding start calls
degraded-forwards_example =
    degraded-forwards chat_env 1000 1200 3000 (chat_call chat_env first) second port after_first
      start (answered env live 107) stale [] refl refl refl refl refl refl refl refl refl
