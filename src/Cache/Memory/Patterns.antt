-- ===== src/Cache/Memory/Patterns.antt =====
-- deleteByPattern of src/libs/shared/caching/memory-cache.service.ts on a literal beginning and a `*`.
use app_tu_phuc_vu.Prelude.{
  ℕ, ◌≡◌, sym, ap, ◌∙◌, refl, Bool, true, false, not, ◌||◌, ◌==◌, ==_iff, none, [], ◌∷◌, ◌++◌, keep,
  if◌then◌else◌, arith, Bool-cases, inl, inr,
}
use mathlib.Core.List.{append_assoc}
use app_tu_phuc_vu.Prelude.OrderedMap
use app_tu_phuc_vu.Prelude.OrderedMap.{OrderedMap}
use app_tu_phuc_vu.Prelude.Text.{Text, text_eq, text_eq_iff, text_eq_refl, starts_with}
use app_tu_phuc_vu.Cache.Glob.{ends_line, star, matches}
use app_tu_phuc_vu.Cache.Memory.{MemoryCache, get_full_key, delete_by_pattern}
use app_tu_phuc_vu.Cache.Memory.Reads.{peek}

-- No character of the text is special in a pattern; none ends a line.
abbrev pub IsPlain : Text → Type 0
IsPlain [] = Unit
IsPlain (c ∷ p) = ((c == b'*' || c == b'?') ≡ false) × IsPlain p

abbrev pub IsLine : Text → Type 0
IsLine [] = Unit
IsLine (x ∷ k) = (ends_line x ≡ false) × IsLine k

star-line : (k : Text) → IsLine k → star (matches []) k ≡ true
unfolding star matches
star-line [] h = refl
star-line (x ∷ k) h = rw (h.0, star-line k h.1) refl

matches-prefix : (p k : Text) → IsPlain p → IsLine k → matches (p ++ b'*' ∷ []) k ≡ starts_with p k
unfolding matches starts_with
matches-prefix [] k plain line = star-line k line
matches-prefix (c ∷ p) [] plain line = ground (arith, plain.0)
matches-prefix (c ∷ p) (x ∷ k) plain line =
    ground (arith, plain.0, matches-prefix p k plain.1 line.1)

starts_with-append : (q p k : Text) → starts_with (q ++ p) (q ++ k) ≡ starts_with p k
unfolding starts_with
starts_with-append [] p k = refl
starts_with-append (c ∷ q) p k = ground (arith, ==_iff c c, starts_with-append q p k)

get-keep :
    {V : Type 0} (p : Text → Bool) (m : OrderedMap V) (k : Text)
    → OrderedMap.get (keep (λ e. p e.0) m) k ≡ (if p k then OrderedMap.get m k else none)
unfolding OrderedMap.get
get-keep p [] k = ground arith
get-keep p ((j, v) ∷ m) k = elim (Bool-cases (text_eq j k)) [
  | inl same ↦
      let eq : j ≡ k = (text_eq_iff j k).0 same in
      rw eq (ground (arith, text_eq_refl k, get-keep p m k))
  | inr other ↦ ground (arith, other, get-keep p m k)
]

pub IsPlain-append : (p q : Text) → IsPlain p → IsPlain q → IsPlain (p ++ q)
IsPlain-append [] q hp hq = hq
IsPlain-append (c ∷ p) q hp hq = (hp.0, IsPlain-append p q hp.1 hq)

pub IsLine-append : (p q : Text) → IsLine p → IsLine q → IsLine (p ++ q)
IsLine-append [] q hp hq = hq
IsLine-append (c ∷ p) q hp hq = (hp.0, IsLine-append p q hp.1 hq)

-- The full pattern on a full key is the pattern on the key.
full_prefix :
    (pre p k : Text)
    → IsPlain pre
    → IsLine pre
    → IsPlain p
    → IsLine k
    → matches (get_full_key pre (p ++ b'*' ∷ [])) (get_full_key pre k) ≡ starts_with p k
unfolding get_full_key
full_prefix [] p k plain_pre line_pre plain line = matches-prefix p k plain line
full_prefix (c ∷ pre) p k plain_pre line_pre plain line =
    let full = (c ∷ pre) ++ b':' ∷ k in
    ap (λ x. matches x full) (sym (append_assoc (c ∷ pre) (b':' ∷ p) (b'*' ∷ [])))
    ∙ matches-prefix ((c ∷ pre) ++ b':' ∷ p) full
        (IsPlain-append (c ∷ pre) (b':' ∷ p) plain_pre (refl, plain))
        (IsLine-append (c ∷ pre) (b':' ∷ k) line_pre (refl, line))
    ∙ starts_with-append (c ∷ pre) (b':' ∷ p) (b':' ∷ k)
    ∙ starts_with-append (b':' ∷ []) p k

module _ {V : Type 0} where
  pub delete_by_pattern-get :
      (p k : Text) (s : MemoryCache V)
      → IsPlain s.key_prefix
      → IsLine s.key_prefix
      → IsPlain p
      → IsLine k
      → OrderedMap.get (delete_by_pattern (p ++ b'*' ∷ []) s).1.cache (get_full_key s.key_prefix k)
        ≡ (if starts_with p k then none else OrderedMap.get s.cache (get_full_key s.key_prefix k))
  unfolding delete_by_pattern
  delete_by_pattern-get p k s plain_pre line_pre plain line =
      let pattern = get_full_key s.key_prefix (p ++ b'*' ∷ []) in
      rw
        (
          get-keep (λ x. not (matches pattern x)) s.cache (get_full_key s.key_prefix k),
          full_prefix s.key_prefix p k plain_pre line_pre plain line,
        )
        (ground arith)

  -- Deleting by a literal beginning and a `*` drops the entries of the keys that begin so, and no
  -- other, for keys of one line and a service whose prefix has no special character.
  pub delete_by_pattern-peek :
      (t : ℕ) (p k : Text) (s : MemoryCache V)
      → IsPlain s.key_prefix
      → IsLine s.key_prefix
      → IsPlain p
      → IsLine k
      → peek t k (delete_by_pattern (p ++ b'*' ∷ []) s).1
        ≡ (if starts_with p k then none else peek t k s)
  unfolding delete_by_pattern peek
  delete_by_pattern-peek t p k s plain_pre line_pre plain line =
      ground (arith, delete_by_pattern-get p k s plain_pre line_pre plain line)
