-- ===== src/Cache/Contract.antt =====
-- What the clients of `ICacheService` (src/libs/shared/caching/cache.interface.ts) rely on: an
-- entry is seen until its expiry, and an operation on one key leaves the other keys alone.
use app_tu_phuc_vu.Prelude.{
  ℕ, suc, ◌+◌, ◌-◌, ◌*◌, ◌/◌, ◌≤◌, ◌≡◌, Bool, false, not, ◌&&◌, Option, none, some, ltb, ◌==◌,
  if◌then◌else◌,
}
use app_tu_phuc_vu.Prelude.Int.{ℤ, pos, negsuc}
use app_tu_phuc_vu.Prelude.Text.{Text, text_eq}

-- `CacheEntry`: a value and the millisecond after which it is gone.
pub record CacheEntry (V : Type 0) : Type 0 where
  pub value : V
  pub expiry : Option ℕ

-- `entry.expiry && Date.now() > entry.expiry`: null and 0 are falsy.
abbrev pub is_past : ℕ → Option ℕ → Bool
is_past now none = false
is_past now (some e) = not (e == 0) && ltb e now

-- `ttl ? Date.now() + ttl * 1000 : null`
abbrev pub expiry_of : ℕ → Option ℕ → Option ℕ
expiry_of now none = none
expiry_of now (some ttl) = if ttl == 0 then none else some (now + ttl * 1000)

-- Math.max(t, 0)
abbrev pub max_zero : ℤ → ℕ
max_zero (pos n) = n
max_zero (negsuc n) = 0

-- The whole seconds up to an expiry, rounded up.
abbrev pub seconds_until : ℕ → Option ℕ → ℕ
seconds_until now none = 0
seconds_until now (some e) = if e == 0 then 0 else (e - now + 999) / 1000

module _ {V : Type 0} where
  -- An entry that is still seen at `now`.
  abbrev pub live : ℕ → Option (CacheEntry V) → Option (CacheEntry V)
  live now none = none
  live now (some e) = if is_past now e.expiry then none else some e

  abbrev pub value_of : Option (CacheEntry V) → Option V
  value_of none = none
  value_of (some e) = some e.value

  abbrev pub seconds_left : ℕ → Option (CacheEntry V) → ℕ
  seconds_left now none = 0
  seconds_left now (some e) = seconds_until now e.expiry

-- The backend as its clients use it. `peek t k s` is the entry that a read at time `t` would find;
-- `HasRoom n s` says that `n` more writes push nothing out.
pub record Cache (V : Type 0) : Type 1 where
  pub State : Type 0
  pub get : ℕ → Text → State → Option V × State
  pub set : ℕ → Text → V → ℕ → State → State
  pub delete : Text → State → State
  pub ttl : ℕ → Text → State → ℤ
  pub peek : ℕ → Text → State → Option (CacheEntry V)
  pub HasRoom : ℕ → State → Type 0
  pub get_lem : (now : ℕ) (k : Text) (s : State) → (get now k s).0 ≡ value_of (peek now k s)
  pub peek-later : (now t : ℕ) (k : Text) (s : State) → now ≤ t → peek t k s ≡ live t (peek now k s)
  pub peek-get :
      (now t : ℕ) (k j : Text) (s : State) → now ≤ t → peek t j (get now k s).1 ≡ peek t j s
  pub peek-set :
      (now t ttl : ℕ) (k j : Text) (v : V) (s : State)
      → HasRoom 1 s
      → peek t j (set now k v ttl s) ≡ (
          if text_eq k j
          then live t (some (record { value = v; expiry = expiry_of now (some ttl) }))
          else peek t j s)
  pub peek-delete :
      (t : ℕ) (k j : Text) (s : State)
      → peek t j (delete k s) ≡ (if text_eq k j then none else peek t j s)
  pub ttl_lem :
      (now : ℕ) (k : Text) (s : State) → max_zero (ttl now k s) ≡ seconds_left now (peek now k s)
  pub HasRoom-weaken : (m n : ℕ) (s : State) → m ≤ n → HasRoom n s → HasRoom m s
  pub HasRoom-get : (n now : ℕ) (k : Text) (s : State) → HasRoom n s → HasRoom n (get now k s).1
  pub HasRoom-set :
      (n now ttl : ℕ) (k : Text) (v : V) (s : State)
      → HasRoom (suc n) s
      → HasRoom n (set now k v ttl s)
  pub HasRoom-delete : (n : ℕ) (k : Text) (s : State) → HasRoom n s → HasRoom n (delete k s)
