-- ===== src/Sessions/Tests.antt =====
-- Three events in pages of two (src/modules/session/session.service.ts).
use app_tu_phuc_vu.Prelude.{◌≡◌, refl, none, some, List, [], ◌∷◌, arith}
use app_tu_phuc_vu.Prelude.Text.{Text, codes, text_eq}
use app_tu_phuc_vu.Sessions.{
  SessionEvent, SessionStore, SessionEventsQuery, SessionEventsResponse, get_my_events,
  get_my_session,
}
use app_tu_phuc_vu.Sessions.Pages.{at_page, first_pages, first_pages-eq}

abbrev event : Text → SessionEvent
event id = record {
  id = id;
  event_type = codes "invoice_viewed";
  channel = codes "app";
  timestamp = codes "2026-01-01";
  content = [];
}

abbrev three : List SessionEvent
three = event (codes "a") ∷ event (codes "b") ∷ event (codes "c") ∷ []

abbrev store : SessionStore
store = record { get_session = λ user_id. none; get_events = λ user_id from to. three }

abbrev query : SessionEventsQuery
query = record { from = none; to = none; channel = none; page = none; page_size = some 2 }

abbrev in_channel : Text → SessionEventsQuery
in_channel channel = record query { channel = some channel }

abbrev second_page : SessionEventsResponse
second_page = record {
  session_id = none;
  events = event (codes "c") ∷ [];
  total_count = 3;
  page = 2;
  page_size = 2;
}

second_test : get_my_events store (codes "u1") (at_page query 2) ≡ some second_page
unfolding get_my_events
second_test = refl

invalid_test : get_my_events store (codes "u1") (at_page query 0) ≡ none
unfolding get_my_events
invalid_test = refl

channel_test :
    (get_my_events store (codes "u1") (in_channel (codes "telegram")) ≡ none)
    × (get_my_events store (codes "u1") (in_channel []) ≡ none)
unfolding get_my_events text_eq
channel_test = (refl, refl)

app_test :
    get_my_events store (codes "u1") (record (in_channel (codes "app")) { page = some 2 })
    ≡ some second_page
unfolding get_my_events text_eq
app_test = refl

unknown_test : (get_my_session store 9 (codes "u1")).recent_events ≡ []
unfolding get_my_session
unknown_test = refl

first_pages-eq_example : first_pages store (codes "u1") query 2 ≡ three
first_pages-eq_example =
    first_pages-eq store (codes "u1") query 2 second_page (omega arith) (omega arith) second_test
      (omega arith)
