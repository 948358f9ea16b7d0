-- ===== src/Sessions/Pages.antt =====
-- What a client of src/modules/session/session.service.ts sees that asks for one page after another.
use app_tu_phuc_vu.Prelude.{
  ℕ, zero, suc, ◌+◌, ◌-◌, ◌*◌, ◌≤◌, ◌<◌, ◌≡◌, refl, sym, ◌∙◌, ap, true, Option, none, some, List,
  [], ◌∷◌, ◌++◌, length, take, arith,
}
use app_tu_phuc_vu.Prelude.Text.{Text}
use app_tu_phuc_vu.Sessions.{
  SessionEvent, SessionStore, SessionEventsQuery, SessionEventsResponse, is_channel, is_valid,
  page_size_of, slice, selected, get_my_events,
}

abbrev pub events_of : Option SessionEventsResponse → List SessionEvent
events_of none = []
events_of (some r) = r.events

abbrev pub at_page : SessionEventsQuery → ℕ → SessionEventsQuery
at_page q n = record q { page = some n }

module _ {A : Type 0} where
  take-none : (n : ℕ) → take {A = A} n [] ≡ []
  take-none zero = refl
  take-none (suc n) = refl

  take-slice : (a n : ℕ) (xs : List A) → take a xs ++ slice a n xs ≡ take (a + n) xs
  take-slice zero n xs = let same : 0 + n ≡ n = omega arith in rw same refl
  take-slice (suc a) n [] = take-none n ∙ sym (take-none (suc a + n))
  take-slice (suc a) n (x ∷ xs) =
      let same : suc a + n ≡ suc (a + n) = omega arith in
      rw same (ap (λ ys. x ∷ ys) (take-slice a n xs))

  take-length : (n : ℕ) (xs : List A) → length xs ≤ n → take n xs ≡ xs
  take-length n [] h = take-none n
  take-length zero (x ∷ xs) h = absurd (omega arith)
  take-length (suc n) (x ∷ xs) h = ap (λ ys. x ∷ ys) (take-length n xs (omega arith))

module _ (store : SessionStore) where
  -- The events of the first pages.
  abbrev pub first_pages : Text → SessionEventsQuery → ℕ → List SessionEvent
  first_pages user_id q zero = []
  first_pages user_id q (suc n) =
      first_pages user_id q n ++ events_of (get_my_events store user_id (at_page q (suc n)))

  page-eq :
      (user_id : Text) (q : SessionEventsQuery) (n : ℕ)
      → 0 < page_size_of q
      → page_size_of q ≤ 50
      → is_channel q.channel ≡ true
      → events_of (get_my_events store user_id (at_page q (suc n)))
        ≡ slice (n * page_size_of q) (page_size_of q) (selected store user_id q)
  unfolding get_my_events
  page-eq user_id q n some_size small known =
      let valid : is_valid (at_page q (suc n)) ≡ true = ground arith in
      let before : suc n - 1 ≡ n = omega arith in rw (valid, before) refl

  first_pages-take :
      (user_id : Text) (q : SessionEventsQuery) (n : ℕ)
      → 0 < page_size_of q
      → page_size_of q ≤ 50
      → is_channel q.channel ≡ true
      → first_pages user_id q n ≡ take (n * page_size_of q) (selected store user_id q)
  first_pages-take user_id q zero some_size small known =
      let none_yet : 0 * page_size_of q ≡ 0 = omega arith in rw none_yet refl
  first_pages-take user_id q (suc n) some_size small known =
      let size = page_size_of q in
      let events = selected store user_id q in
      let more : suc n * size ≡ n * size + size = ground arith in
      rw
        (
          first_pages-take user_id q n some_size small known,
          page-eq user_id q n some_size small known,
          take-slice (n * size) size events,
          more,
        )
        refl

  -- A client that asks for one page after another, with a page size from 1 to 50, gets every event of
  -- its query once and in order, as soon as the pages it asked for have room for the total count that
  -- each of them reports; for a store that stays as it is.
  pub first_pages-eq :
      (user_id : Text) (q : SessionEventsQuery) (n : ℕ) (r : SessionEventsResponse)
      → 0 < page_size_of q
      → page_size_of q ≤ 50
      → get_my_events store user_id (at_page q n) ≡ some r
      → r.total_count ≤ n * page_size_of q
      → first_pages user_id q n ≡ selected store user_id q
  unfolding get_my_events
  first_pages-eq user_id q n r some_size small answered enough =
      let total : r.total_count ≡ length (selected store user_id q) = ground arith in
      let known : is_channel q.channel ≡ true = ground arith in
      first_pages-take user_id q n some_size small known
      ∙ take-length (n * page_size_of q) (selected store user_id q) (omega arith)
