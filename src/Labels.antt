-- ===== src/Labels.antt =====
-- DNS labels: internal/helper/dns_helper.go.
pub mod Compliant
use dynamic_zones.Base.{
  ℕ, Bool, true, false, not, ◌&&◌, ◌||◌, Option, none, some, List, [], ◌∷◌, ltb, leb, eqb,
  if◌then◌else◌, length, all,
}
use dynamic_zones.Text.{Text, txt, to_lower, trim_first, trim_last, split, replace_all}

-- The errors of the validation; a nil error is `none`.
pub data NameError : Type 0 where
  empty_name bad_total_length too_few_parts bad_label_length bad_label_chars bad_label_ends :
      NameError

unfoldable pub is_alpha_num : ℕ → Bool
is_alpha_num b =
    (leb b'0' b && leb b b'9') || (leb b'A' b && leb b b'Z') || (leb b'a' b && leb b b'z')

-- [A-Za-z0-9-]
unfoldable pub is_label_char : ℕ → Bool
unfolding is_alpha_num
is_label_char b = is_alpha_num b || eqb b b'-'

-- `label[0]` of a label that is not empty
abbrev pub first_byte : Text → ℕ
first_byte [] = 0
first_byte (c ∷ s) = c

-- `label[len(label)-1]` of a label that is not empty
abbrev pub last_byte : Text → ℕ
last_byte [] = 0
last_byte (c ∷ []) = c
last_byte (c ∷ d ∷ s) = last_byte (d ∷ s)

unfoldable pub dns_is_valid_label : Text → Option NameError
dns_is_valid_label label =
    if ltb (length label) 1 || ltb 63 (length label)
    then some bad_label_length
    else if not (all is_label_char label)
    then some bad_label_chars
    else if not (is_alpha_num (first_byte label)) || not (is_alpha_num (last_byte label))
    then some bad_label_ends
    else none

-- The loop over the labels, which returns the first error.
first_label_error : List Text → Option NameError
first_label_error [] = none
first_label_error (label ∷ rest) = elim (dns_is_valid_label label) [
  | none ↦ first_label_error rest
  | some e ↦ some e
]

unfoldable pub dns_validate_name : Text → Option NameError
unfolding first_label_error
dns_validate_name [] = some empty_name
dns_validate_name (c ∷ s) =
    if ltb 253 (length (c ∷ s))
    then some bad_total_length
    else if ltb (length (split b'.' (c ∷ s))) 2
    then some too_few_parts
    else first_label_error (split b'.' (c ∷ s))

-- regexp.ReplaceAllString of `[…]+` by "-": each longest run of bytes in the class becomes one
-- hyphen. `in_run` tells that the byte before was in the class.
unfoldable pub replace_runs : (ℕ → Bool) → Bool → Text → Text
replace_runs in_class in_run [] = []
replace_runs in_class in_run (c ∷ s) =
    let rest = replace_runs in_class (in_class c) s in
    if in_class c then (if in_run then rest else b'-' ∷ rest) else c ∷ rest

-- A run of one hyphen, which `-{2,}` does not match, stays one hyphen.
unfoldable pub dns_make_compliant : Text → Text
dns_make_compliant input =
    let name = replace_all input (txt "@") (txt "-at-") in
    let name = replace_runs (λ c. not (is_label_char c)) false name in
    let name = replace_runs (λ c. eqb c b'-') false name in
    let name = trim_first b'-' name in let name = trim_last b'-' name in to_lower name
