-- ===== src/Support/Outbox/Delivery.antt =====
-- What a flush of src/modules/support/chat-outbox.forwarder.ts does to the rows.
use app_tu_phuc_vu.Prelude.{[], ℕ, ◌≡◌, refl, sym, true, false, some, ok}
use app_tu_phuc_vu.Prelude.Text.{codes}
use app_tu_phuc_vu.Prelude.OrderedMap
use app_tu_phuc_vu.Prelude.OrderedMap.{OrderedMap}
use app_tu_phuc_vu.Ports.Types.{PortResult, PortEntry}
use app_tu_phuc_vu.Ports.Registry.{PortRegistry}
use app_tu_phuc_vu.Ports.Degraded.{PortCall}
use app_tu_phuc_vu.Ports.Execute.{execute}
use app_tu_phuc_vu.Ports.Execute.Idle.{execute_all}
use app_tu_phuc_vu.Ports.Execute.Stale.{HasFallback, is_degraded, degraded-eq-last}
use app_tu_phuc_vu.Support.Outbox.{
  ChatRow, mark_forwarded, ForwarderEnv, Forwarder, chat_call, is_sent, forward_row,
}

module _ (e : ForwarderEnv) where
  -- After a message was sent through the port, a later one that the port can only answer with stale
  -- data is marked as forwarded, though the adapter did not deliver it; for a port that is registered
  -- and a provider that has its Map.
  pub degraded-forwards :
      (now ended t : ℕ) (c : PortCall e.ports) (row : ChatRow) (port : PortEntry e.ports)
      (s : Forwarder e) (before : PortRegistry e.ports) (x y : PortResult e.ports.Data)
      (m : OrderedMap e.ports.Data)
      → c.port_name ≡ codes "cskh-chat"
      → OrderedMap.get before.ports c.port_name ≡ some port
      → HasFallback e.ports c.port_name before
      → before.fallback.fallback_cache ≡ some m
      → execute e.ports now ended c before ≡ (ok x, s.registry)
      → x.from_cache ≡ false
      → is_sent e x.answer ≡ true
      → (execute e.ports t t (chat_call e row) s.registry).0 ≡ ok y
      → is_degraded y.metadata ≡ true
      → ((forward_row e t row s).0 ≡ true)
        × ((forward_row e t row s).1.rows ≡ mark_forwarded t row.message_id s.rows)
  unfolding forward_row execute_all
  degraded-forwards now ended t c row port s before x y m on_chat known has kept h asked sent later
        stale =
      let same =
        degraded-eq-last e.ports now ended t t c (chat_call e row) [] port before s.registry x y m
          known has kept h asked tt (sym on_chat) later stale in
      let sent' : is_sent e y.answer ≡ true = rw same sent in rw (later, sent') (refl, refl)
