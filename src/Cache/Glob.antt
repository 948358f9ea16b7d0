-- ===== src/Cache/Glob.antt =====
-- `globToRegex` of src/libs/shared/caching/memory-cache.service.ts with the test of its RegExp: `*`
-- stands for any characters of a line, `?` for one, and every other character for itself.
use app_tu_phuc_vu.Prelude.{ℕ, Bool, true, false, not, ◌&&◌, ◌||◌, ◌==◌, [], ◌∷◌, if◌then◌else◌}
use app_tu_phuc_vu.Prelude.Text.{Text}

-- The characters that end a line, which `.` does not match.
abbrev pub ends_line : ℕ → Bool
ends_line x = x == 10 || (x == 13 || (x == 8232 || x == 8233))

-- Does some rest of the text, after characters of one line, satisfy the test?
unfoldable pub star : (Text → Bool) → Text → Bool
star f [] = f []
star f (x ∷ xs) = f (x ∷ xs) || (not (ends_line x) && star f xs)

abbrev one_char : (Text → Bool) → Text → Bool
one_char f [] = false
one_char f (x ∷ xs) = not (ends_line x) && f xs

abbrev pub literal : ℕ → (Text → Bool) → Text → Bool
literal c f [] = false
literal c f (x ∷ xs) = x == c && f xs

unfoldable pub matches : Text → Text → Bool
unfolding star
matches [] [] = true
matches [] (x ∷ xs) = false
matches (c ∷ p) xs =
    let rest = matches p in
    if c == b'*' then star rest xs else if c == b'?' then one_char rest xs else literal c rest xs
