-- ===== src/Sessions.antt =====
-- src/modules/session/session.service.ts over the store of sessions, whose reads are parameters.
pub mod Pages
mod Tests
use app_tu_phuc_vu.Prelude.{
  ℕ, zero, suc, ◌-◌, ◌*◌, Bool, true, ◌&&◌, any, leb, ltb, Option, none, some, List, [], ◌∷◌,
  length, take, keep, or_else, if◌then◌else◌,
}
use app_tu_phuc_vu.Prelude.Text.{Text, codes, text_eq}

-- The content is its printed form.
pub record SessionEvent : Type 0 where
  pub id : Text
  pub event_type : Text
  pub channel : Text
  pub timestamp : Text
  pub content : Text

pub record SessionMetadata : Type 0 where
  pub session_id : Text
  pub user_id : Text
  pub channel : Text
  pub created_at : Text
  pub updated_at : Text
  pub event_count : ℕ

-- The reads of ISessionStore: a session, and its events from a time and up to a time.
pub record SessionStore : Type 0 where
  pub get_session : Text → Option SessionMetadata
  pub get_events : Text → Option ℕ → Option ℕ → List SessionEvent

-- The query after its fields were read as numbers.
pub record SessionEventsQuery : Type 0 where
  pub from : Option ℕ
  pub to : Option ℕ
  pub channel : Option Text
  pub page : Option ℕ
  pub page_size : Option ℕ

pub record SessionEventsResponse : Type 0 where
  pub session_id : Option Text
  pub events : List SessionEvent
  pub total_count : ℕ
  pub page : ℕ
  pub page_size : ℕ

pub record SessionDetailResponse : Type 0 where
  pub session : Option SessionMetadata
  pub recent_events : List SessionEvent

abbrev pub recent_events_window_ms : ℕ
recent_events_window_ms = 2 * 60 * 60 * 1000

abbrev pub page_of : SessionEventsQuery → ℕ
page_of q = or_else q.page 1

abbrev pub page_size_of : SessionEventsQuery → ℕ
page_size_of q = or_else q.page_size 20

abbrev pub channels : List Text
channels = codes "app" ∷ codes "zalo" ∷ codes "web" ∷ codes "hotline" ∷ codes "counter" ∷ []

-- The channel may be absent; an empty one is refused like any other unknown one.
abbrev pub is_channel : Option Text → Bool
is_channel none = true
is_channel (some channel) = any (text_eq channel) channels

abbrev pub is_valid : SessionEventsQuery → Bool
is_valid q =
    is_channel q.channel
    && (ltb 0 (page_of q) && (ltb 0 (page_size_of q) && leb (page_size_of q) 50))

abbrev pub drop {ℓ} : {A : Type ℓ} → ℕ → List A → List A
drop zero xs = xs
drop (suc n) [] = []
drop (suc n) (x ∷ xs) = drop n xs

-- events.slice(offset, offset + size)
abbrev pub slice {ℓ} : {A : Type ℓ} → ℕ → ℕ → List A → List A
slice offset size xs = take size (drop offset xs)

-- An absent channel, and an empty one, filters nothing.
abbrev pub in_channel : Option Text → List SessionEvent → List SessionEvent
in_channel none events = events
in_channel (some []) events = events
in_channel (some (c ∷ channel)) events = keep (λ e. text_eq e.channel (c ∷ channel)) events

abbrev pub session_id_of : Option SessionMetadata → Option Text
session_id_of none = none
session_id_of (some m) = some m.session_id

module _ (store : SessionStore) where
  abbrev pub detail_of : ℕ → Text → Option SessionMetadata → SessionDetailResponse
  detail_of now user_id none = record { session = none; recent_events = [] }
  detail_of now user_id (some m) = record {
    session = some m;
    recent_events = store.get_events user_id (some (now - recent_events_window_ms)) none;
  }

  unfoldable pub get_my_session : ℕ → Text → SessionDetailResponse
  get_my_session now user_id = detail_of now user_id (store.get_session user_id)

  abbrev pub selected : Text → SessionEventsQuery → List SessionEvent
  selected user_id q = in_channel q.channel (store.get_events user_id q.from q.to)

  -- none is the error for an invalid query.
  unfoldable pub get_my_events : Text → SessionEventsQuery → Option SessionEventsResponse
  get_my_events user_id q =
      if is_valid q
      then some (record {
        session_id = session_id_of (store.get_session user_id);
        events = slice ((page_of q - 1) * page_size_of q) (page_size_of q) (selected user_id q);
        total_count = length (selected user_id q);
        page = page_of q;
        page_size = page_size_of q;
      })
      else none
