-- ===== src/Account/Phone.antt =====
-- The phone numbers, the masked names and the numbered references of
-- src/modules/account/clients/customer-service-mock.client.ts.
use app_tu_phuc_vu.Prelude.{
  ℕ, zero, suc, ◌+◌, ◌-◌, ◌*◌, ◌/◌, ◌%◌, Bool, true, false, ◌&&◌, ◌||◌, ◌==◌, leb, ltb, Option,
  none, some, List, [], ◌∷◌, ◌++◌, keep, length, if◌then◌else◌,
}
use app_tu_phuc_vu.Prelude.Text.{Text, codes}

abbrev is_digit : ℕ → Bool
is_digit x = leb b'0' x && leb x b'9'

abbrev drop_country : Text → Text
drop_country [] = []
drop_country (x ∷ []) = x ∷ []
drop_country (x ∷ y ∷ xs) = if x == b'8' && y == b'4' then xs else x ∷ y ∷ xs

unfoldable pub drop_zeros : Text → Text
drop_zeros [] = []
drop_zeros (x ∷ xs) = let rest = drop_zeros xs in if x == b'0' then rest else x ∷ xs

-- Digits only, without the country code and leading zeros.
unfoldable pub normalize_phone : Text → Text
unfolding drop_zeros
normalize_phone phone = drop_zeros (drop_country (keep is_digit phone))

-- \s of a RegExp, which String.prototype.trim drops too.
abbrev is_space : ℕ → Bool
is_space x =
    (leb 9 x && leb x 13)
    || (x == 32
        || (x == 160
            || (x == 5760
                || ((leb 8192 x && leb x 8202)
                    || (x == 8232
                        || (x == 8233
                            || (x == 8239 || (x == 8287 || (x == 12288 || x == 65279)))))))))

-- A word that is under way is put before the words that follow it.
abbrev onto : ℕ → List Text → List Text
onto x [] = (x ∷ []) ∷ []
onto x (w ∷ ws) = (x ∷ w) ∷ ws

-- The words of a text, the first of them empty where the text is empty or begins with a space.
unfoldable pub split_spaces : Text → List Text
split_spaces [] = [] ∷ []
split_spaces (x ∷ xs) = let rest = split_spaces xs in if is_space x then [] ∷ rest else onto x rest

abbrev has_text : Text → Bool
has_text [] = false
has_text (x ∷ xs) = true

-- `fullName.trim().split(/\s+/)`: of an empty name, one empty part.
abbrev parts_or_empty : List Text → List Text
parts_or_empty [] = [] ∷ []
parts_or_empty (w ∷ ws) = w ∷ ws

unfoldable pub parts_of : Text → List Text
unfolding split_spaces
parts_of name = parts_or_empty (keep has_text (split_spaces name))

abbrev first_char : Text → Text
first_char [] = []
first_char (x ∷ xs) = x ∷ []

abbrev masked_parts : List Text → Text
masked_parts [] = codes "***"
masked_parts (w ∷ []) = w ++ codes "***"
masked_parts (w ∷ v ∷ ws) = w ++ b' ' ∷ (first_char v ++ codes "***")

unfoldable pub masked_name : Text → Text
unfolding parts_of
masked_name name = masked_parts (parts_of name)

-- String(n): at each step the last digit goes before those found, as long as there is fuel.
unfoldable pub digits_onto : ℕ → ℕ → Text → Text
digits_onto zero n found = found
digits_onto (suc fuel) n found = elim (ltb n 10) [
  | true ↦ (n + b'0') ∷ found
  | false ↦ digits_onto fuel (n / 10) ((n % 10 + b'0') ∷ found)
]

-- A number has no more digits than its successor counts.
unfoldable pub decimal : ℕ → Text
unfolding digits_onto
decimal n = digits_onto (suc n) n []

abbrev zeros : ℕ → Text
zeros zero = []
zeros (suc n) = b'0' ∷ zeros n

-- String(n).padStart(6, '0')
unfoldable pub pad_six : ℕ → Text
unfolding decimal
pad_six n = zeros (6 - length (decimal n)) ++ decimal n

unfoldable pub value_onto : ℕ → Text → ℕ
value_onto n [] = n
value_onto n (x ∷ xs) = value_onto (n * 10 + (x - b'0')) xs

unfoldable pub all_digits : Text → Bool
all_digits [] = true
all_digits (x ∷ xs) = is_digit x && all_digits xs

unfoldable pub after : Text → Text → Option Text
after [] ref = some ref
after (c ∷ p) [] = none
after (c ∷ p) (x ∷ ref) = let rest = after p ref in if x == c then rest else none

abbrev number_in : Option Text → Option ℕ
number_in none = none
number_in (some xs) = if length xs == 6 && all_digits xs then some (value_onto 0 xs) else none

-- `/^REF-NEW-(\d{6})$/.exec(ref)`
unfoldable pub number_of : Text → Option ℕ
unfolding after all_digits value_onto
number_of ref = number_in (after (codes "REF-NEW-") ref)
