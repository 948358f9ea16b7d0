-- ===== src/Inbound/Claims.antt =====
-- Repeated deliveries of one message (src/libs/shared/port/inbound-idempotency.service.ts): one is
-- processed.
use app_tu_phuc_vu.Prelude.{
  ℕ, ◌+◌, ◌<◌, ◌≡◌, refl, ap, ◌∙◌, true, false, Option, some, List, [], ◌∷◌, All, if◌then◌else◌,
  arith,
}
use app_tu_phuc_vu.Prelude.Text.{Text}
use app_tu_phuc_vu.Cache.Memory.{MemoryCache, set_if_not_exist}
use app_tu_phuc_vu.Cache.Memory.Claims.{claim_then_claim}
use app_tu_phuc_vu.Inbound.{Inbound, claimed, default_ttl, build_cache_key, claim}

module _ (hash : Text → Text) {A : Type 0} where
  -- How many deliveries of the message, at the given times, win their claim.
  unfoldable pub wins : Text → List ℕ → Option (MemoryCache (Inbound A)) → ℕ
  wins raw_key [] s = 0
  wins raw_key (t ∷ ts) s =
      let (won, s') = claim hash t raw_key s in (if won then 1 else 0) + wins raw_key ts s'

  -- A claim that is lost changes nothing.
  lost-keeps :
      (t : ℕ) (raw_key : Text) (s : MemoryCache (Inbound A))
      → (claim hash t raw_key (some s)).0 ≡ false
      → (claim hash t raw_key (some s)).1 ≡ some s
  unfolding claim set_if_not_exist
  lost-keeps t raw_key s h = ground arith

  loses :
      (now t : ℕ) (raw_key : Text) (s s' : MemoryCache (Inbound A))
      → claim hash now raw_key (some s) ≡ (true, some s')
      → t < now + 86400000
      → (claim hash t raw_key (some s')).0 ≡ false
  unfolding claim
  loses now t raw_key s s' won early =
      let key = build_cache_key hash raw_key in
      let first : set_if_not_exist now key claimed (some default_ttl) s ≡ (true, s') =
        ground arith in
      claim_then_claim now t default_ttl key claimed claimed (some default_ttl) s s' (omega arith)
        first
      ∙ ground arith

  none_wins :
      (now : ℕ) (raw_key : Text) (s s' : MemoryCache (Inbound A)) (ts : List ℕ)
      → claim hash now raw_key (some s) ≡ (true, some s')
      → All (λ t. t < now + 86400000) ts
      → wins raw_key ts (some s') ≡ 0
  unfolding wins
  none_wins now raw_key s s' [] won early = refl
  none_wins now raw_key s s' (t ∷ ts) won early =
      let lost = loses now t raw_key s s' won early.0 in
      rw (lost, lost-keeps t raw_key s' lost)
        (omega (arith, none_wins now raw_key s s' ts won early.1))

  -- Of a message's deliveries within 24 hours after its first claim won, none wins another one, where
  -- no other message comes between and the service has a cache, the one in memory: one delivery is
  -- processed.
  pub deliveries-win_once :
      (now : ℕ) (raw_key : Text) (s : MemoryCache (Inbound A)) (ts : List ℕ)
      → (claim hash now raw_key (some s)).0 ≡ true
      → All (λ t. t < now + 86400000) ts
      → wins raw_key (now ∷ ts) (some s) ≡ 1
  unfolding wins claim
  deliveries-win_once now raw_key s ts won early =
      let s' =
        (set_if_not_exist now (build_cache_key hash raw_key) claimed (some default_ttl) s).1 in
      let first : claim hash now raw_key (some s) ≡ (true, some s') = ap (λ b. (b, some s')) won in
      rw won (omega (arith, none_wins now raw_key s s' ts first early))
