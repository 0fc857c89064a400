-- ===== src/Text.antt =====
-- Go strings as lists of bytes, and the functions of Go's `strings` package that the program calls.
-- Texts are ASCII: on bytes from 128 on, Go's `ToLower` and `TrimSpace` decode UTF-8.
use Prim.Native.Char.{code}
use Prim.Native.Nat.{◌/◌, ◌%◌}
use Prim.Native.String
pub mod Laws
use dynamic_zones.Base.{
  ℕ, zero, suc, ◌+◌, ◌-◌, ◌*◌, String, ◌≡◌, refl, ap, ◌↔◌, ◌≢◌, Bool, true, false, ◌&&◌, ◌||◌, List,
  [], ◌∷◌, ◌++◌, map, arith, eqb, eqb_iff, leb, ltb, if◌then◌else◌, length, drop,
}

abbrev pub Text : Type 0
Text = List ℕ

-- The bytes of an ASCII literal.
abbrev pub txt : String → Text
txt String.[] = []
txt (String.◌∷◌ c s) = code c ∷ txt s

infix 50 ◌==◌
unfoldable pub ◌==◌ : Text → Text → Bool
[] == [] = true
(a ∷ s) == (b ∷ t) = eqb a b && s == t
_ == _ = false

pub ==_iff : (s t : Text) → ((s == t) ≡ true) ↔ (s ≡ t)
unfolding ◌==◌
==_iff [] [] = ground arith
==_iff [] (b ∷ t) = ground arith
==_iff (a ∷ s) [] = ground arith
==_iff (a ∷ s) (b ∷ t) = ground (arith, ==_iff s t)

-- unicode.ToLower on one ASCII byte
unfoldable pub lower : ℕ → ℕ
lower c = if leb b'A' c && leb c b'Z' then c + 32 else c

-- strings.ToLower
unfoldable pub to_lower : Text → Text
unfolding lower
to_lower = map lower

-- strings.HasPrefix
unfoldable pub has_prefix : Text → Text → Bool
has_prefix s [] = true
has_prefix [] (b ∷ t) = false
has_prefix (a ∷ s) (b ∷ t) = eqb a b && has_prefix s t

-- strings.HasSuffix: the text itself, or a tail of it, is the suffix.
unfoldable pub has_suffix : Text → Text → Bool
unfolding ◌==◌
has_suffix [] t = [] == t
has_suffix (a ∷ s) t = (a ∷ s) == t || has_suffix s t

-- strings.TrimSuffix of a suffix of one byte
unfoldable pub trim_last : ℕ → Text → Text
trim_last b [] = []
trim_last b (c ∷ []) = if eqb c b then [] else c ∷ []
trim_last b (c ∷ d ∷ s) = c ∷ trim_last b (d ∷ s)

-- strings.ToUpper
unfoldable pub to_upper : Text → Text
to_upper [] = []
to_upper (c ∷ s) = (if leb b'a' c && leb c b'z' then c - 32 else c) ∷ to_upper s

-- strings.TrimSuffix(s, ".")
abbrev pub trim_dot : Text → Text
trim_dot = trim_last b'.'

-- strings.TrimPrefix of a prefix of one byte
unfoldable pub trim_first : ℕ → Text → Text
trim_first b [] = []
trim_first b (c ∷ s) = if eqb c b then s else c ∷ s

-- unicode.IsSpace on one ASCII byte
unfoldable pub is_space : ℕ → Bool
is_space c = (leb 9 c && leb c 13) || eqb c 32

unfoldable pub trim_left : Text → Text
trim_left [] = []
trim_left (c ∷ s) = if is_space c then trim_left s else c ∷ s

abbrev cons_unless_blank : ℕ → Text → Text
cons_unless_blank c [] = if is_space c then [] else c ∷ []
cons_unless_blank c (d ∷ s) = c ∷ d ∷ s

unfoldable pub trim_right : Text → Text
trim_right [] = []
trim_right (c ∷ s) = cons_unless_blank c (trim_right s)

-- strings.TrimSpace
unfoldable pub trim_space : Text → Text
unfolding trim_left trim_right is_space
trim_space s = trim_right (trim_left s)

abbrev pub cons_first : ℕ → List Text → List Text
cons_first c [] = (c ∷ []) ∷ []
cons_first c (part ∷ parts) = (c ∷ part) ∷ parts

-- strings.Split by a separator of one byte
unfoldable pub split : ℕ → Text → List Text
split sep [] = [] ∷ []
split sep (c ∷ s) = let parts = split sep s in if eqb c sep then [] ∷ parts else cons_first c parts

-- strings.TrimRight and strings.Trim of one byte
abbrev cons_unless_byte : ℕ → ℕ → Text → Text
cons_unless_byte b c [] = if eqb c b then [] else c ∷ []
cons_unless_byte b c (d ∷ s) = c ∷ d ∷ s

unfoldable pub trim_right_byte : ℕ → Text → Text
trim_right_byte b [] = []
trim_right_byte b (c ∷ s) = cons_unless_byte b c (trim_right_byte b s)

unfoldable pub trim_byte : ℕ → Text → Text
unfolding trim_right_byte
trim_byte b [] = []
trim_byte b (c ∷ s) =
    let rest = trim_byte b s in if eqb c b then rest else trim_right_byte b (c ∷ s)

-- strings.Join by a separator of one byte
unfoldable pub join : ℕ → List Text → Text
join sep [] = []
join sep (part ∷ []) = part
join sep (part ∷ next ∷ parts) = part ++ sep ∷ join sep (next ∷ parts)

-- strings.Count of one byte
unfoldable pub count : ℕ → Text → ℕ
count b [] = 0
count b (c ∷ s) = (if eqb c b then 1 else 0) + count b s

-- strings.Contains of one byte
unfoldable pub contains : ℕ → Text → Bool
contains b [] = false
contains b (c ∷ s) = eqb c b || contains b s

-- strings.SplitN(s, sep, 2) of a text with the separator: what stands before and after the first
unfoldable pub before : ℕ → Text → Text
before sep [] = []
before sep (c ∷ s) = if eqb c sep then [] else c ∷ before sep s

unfoldable pub after : ℕ → Text → Text
after sep [] = []
after sep (c ∷ s) = if eqb c sep then s else after sep s

-- `skip` is how many bytes of the match that was replaced last are still to be passed over.
unfoldable pub replace_from : Text → Text → ℕ → Text → Text
unfolding has_prefix
replace_from old new skip [] = []
replace_from old new (suc skip) (c ∷ s) = replace_from old new skip s
replace_from old new zero (c ∷ s) =
    let kept = replace_from old new 0 s in
    let replaced = replace_from old new (length old - 1) s in
    if has_prefix (c ∷ s) old then new ++ replaced else c ∷ kept

-- strings.ReplaceAll of a text that is not empty
unfoldable pub replace_all : Text → Text → Text → Text
unfolding replace_from
replace_all s old new = replace_from old new 0 s

-- `%d`: `suc n` rounds are enough, since each divides by ten.
unfoldable pub digits : ℕ → ℕ → Text
digits zero n = []
digits (suc fuel) n =
    let rest = digits fuel (n / 10) in
    if ltb n 10 then (b'0' + n) ∷ [] else rest ++ (b'0' + n % 10) ∷ []

unfoldable pub decimal : ℕ → Text
unfolding digits
decimal n = digits (suc n) n

-- hex.EncodeToString
abbrev hex_digit : ℕ → ℕ
hex_digit n = if ltb n 10 then 48 + n else 87 + n

unfoldable pub hex : List ℕ → Text
hex [] = []
hex (b ∷ bytes) = hex_digit (b / 16) ∷ hex_digit (b % 16) ∷ hex bytes

-- base64.StdEncoding.EncodeToString
abbrev base64_digit : ℕ → ℕ
base64_digit n =
    if ltb n 26
    then 65 + n
    else if ltb n 52
    then 71 + n
    else if ltb n 62
    then n - 4
    else if eqb n 62
    then b'+'
    else b'/'

unfoldable pub base64 : List ℕ → Text
base64 [] = []
base64 (a ∷ []) = base64_digit (a / 4) ∷ base64_digit (a % 4 * 16) ∷ b'=' ∷ b'=' ∷ []
base64 (a ∷ b ∷ []) =
    base64_digit (a / 4)
    ∷ base64_digit (a % 4 * 16 + b / 16)
    ∷ base64_digit (b % 16 * 4)
    ∷ b'='
    ∷ []
base64 (a ∷ b ∷ c ∷ bytes) =
    base64_digit (a / 4)
    ∷ base64_digit (a % 4 * 16 + b / 16)
    ∷ base64_digit (b % 16 * 4 + c / 64)
    ∷ base64_digit (c % 64)
    ∷ base64 bytes
