-- ===== src/Labels/Compliant.antt =====
-- What `DnsMakeCompliant` of internal/helper/dns_helper.go makes of a text.
use dynamic_zones.Base.{
  ℕ, ◌≤◌, ◌≡◌, ◌≢◌, refl, ◌⊎◌, inl, inr, Bool, true, false, not, ◌&&◌, none, [], ◌∷◌, arith, eqb,
  length, all,
}
use dynamic_zones.Text.{Text, lower, to_lower, trim_first, trim_last}
use dynamic_zones.Labels.{
  is_alpha_num, is_label_char, last_byte, dns_is_valid_label, replace_runs, dns_make_compliant,
}

abbrev hyphen : ℕ → Bool
hyphen c = eqb c b'-'

-- No two hyphens meet; `after_hyphen` tells that a hyphen stands before the text.
spaced : Bool → Text → Bool
spaced after_hyphen [] = true
spaced after_hyphen (c ∷ s) = not (after_hyphen && hyphen c) && spaced (hyphen c) s

replace_runs-spaced : (b : Bool) (s : Text) → spaced b (replace_runs hyphen b s) ≡ true
unfolding spaced replace_runs
replace_runs-spaced b [] = refl
replace_runs-spaced b (c ∷ s) = ground (arith, replace_runs-spaced (hyphen c) s)

replace_runs-chars :
    (in_class : ℕ → Bool) (b : Bool) (s : Text)
    → all is_label_char s ≡ true
    → all is_label_char (replace_runs in_class b s) ≡ true
unfolding replace_runs is_label_char
replace_runs-chars in_class b [] h = refl
replace_runs-chars in_class b (c ∷ s) h = ground (arith, replace_runs-chars in_class (in_class c) s)

hyphen-is_label_char : is_label_char b'-' ≡ true
unfolding is_label_char
hyphen-is_label_char = refl

bad_runs-chars :
    (b : Bool) (s : Text) → all is_label_char (replace_runs (λ c. not (is_label_char c)) b s) ≡ true
unfolding replace_runs
bad_runs-chars b [] = refl
bad_runs-chars b (c ∷ s) =
    ground (arith, bad_runs-chars (not (is_label_char c)) s, hyphen-is_label_char)

trim_first-spaced : (s : Text) → spaced false s ≡ true → spaced true (trim_first b'-' s) ≡ true
unfolding spaced trim_first
trim_first-spaced [] h = refl
trim_first-spaced (c ∷ s) h = ground arith

trim_last-spaced : (b : Bool) (s : Text) → spaced b s ≡ true → spaced b (trim_last b'-' s) ≡ true
unfolding spaced trim_last
trim_last-spaced b [] h = refl
trim_last-spaced b (c ∷ []) h = ground arith
trim_last-spaced b (c ∷ d ∷ s) h = ground (arith, trim_last-spaced (hyphen c) (d ∷ s))

trim_last-ends :
    (b : Bool) (s : Text)
    → spaced b s ≡ true
    → trim_last b'-' s ≢ []
    → hyphen (last_byte (trim_last b'-' s)) ≡ false
unfolding spaced trim_last
trim_last-ends b [] h ne = absurd (ne refl)
trim_last-ends b (c ∷ []) h ne = ground arith
trim_last-ends b (c ∷ d ∷ []) h ne = ground arith
trim_last-ends b (c ∷ d ∷ e ∷ s) h ne =
    trim_last-ends (hyphen c) (d ∷ e ∷ s) (ground arith) (λ none. cc)

trim_last-chars :
    (s : Text) → all is_label_char s ≡ true → all is_label_char (trim_last b'-' s) ≡ true
unfolding trim_last
trim_last-chars [] h = refl
trim_last-chars (c ∷ []) h = ground arith
trim_last-chars (c ∷ d ∷ s) h = ground (arith, trim_last-chars (d ∷ s))

trim_first-chars :
    (s : Text) → all is_label_char s ≡ true → all is_label_char (trim_first b'-' s) ≡ true
unfolding trim_first
trim_first-chars [] h = refl
trim_first-chars (c ∷ s) h = ground arith

lower-char : (c : ℕ) → is_label_char c ≡ true → is_label_char (lower c) ≡ true
unfolding is_label_char lower
lower-char c h = ground arith

to_lower-chars : (s : Text) → all is_label_char s ≡ true → all is_label_char (to_lower s) ≡ true
unfolding to_lower
to_lower-chars [] h = refl
to_lower-chars (c ∷ s) h = ground (arith, to_lower-chars s, lower-char c)

last-char :
    (c : ℕ) (s : Text) → all is_label_char (c ∷ s) ≡ true → is_label_char (last_byte (c ∷ s)) ≡ true
last-char c [] h = ground arith
last-char c (d ∷ s) h = last-char d s (ground arith)

last_byte-to_lower : (c : ℕ) (s : Text) → last_byte (to_lower (c ∷ s)) ≡ lower (last_byte (c ∷ s))
unfolding to_lower
last_byte-to_lower c [] = refl
last_byte-to_lower c (d ∷ s) = last_byte-to_lower d s

-- A byte of a label that is no hyphen stays a letter or a digit in lower case.
lower-alpha_num :
    (c : ℕ) → is_label_char c ≡ true → hyphen c ≡ false → is_alpha_num (lower c) ≡ true
unfolding is_label_char lower
lower-alpha_num c h n = ground arith

record IsPlain (s : Text) : Type 0 where
  chars : all is_label_char s ≡ true
  starts : spaced true s ≡ true
  ends : s ≢ [] → hyphen (last_byte s) ≡ false

to_lower-IsValid :
    (s : Text)
    → IsPlain s
    → length (to_lower s) ≤ 63
    → (to_lower s ≡ []) ⊎ (dns_is_valid_label (to_lower s) ≡ none)
to_lower-IsValid [] plain short = inl (unfold to_lower in refl)
to_lower-IsValid (c ∷ s) plain short = inr (valid (to_lower-chars (c ∷ s) plain.chars))
  where
    first : is_alpha_num (lower c) ≡ true
    first =
        lower-alpha_num c (ground (arith, plain.chars))
          (unfold spaced in ground (arith, plain.starts))

    last : is_alpha_num (last_byte (to_lower (c ∷ s))) ≡ true
    last =
        rw last_byte-to_lower (
          lower-alpha_num (last_byte (c ∷ s)) (last-char c s plain.chars) (plain.ends (λ none. cc)))

    valid :
        all is_label_char (to_lower (c ∷ s)) ≡ true → dns_is_valid_label (to_lower (c ∷ s)) ≡ none
    valid good = unfold dns_is_valid_label to_lower in ground (arith, first, last, good, short)

-- `DnsMakeCompliant` returns the empty text, a text of more than 63 bytes, or a label that
-- `DnsIsValidLabel` accepts.
pub dns_make_compliant-IsValid :
    (input : Text)
    → length (dns_make_compliant input) ≤ 63
    → (dns_make_compliant input ≡ []) ⊎ (dns_is_valid_label (dns_make_compliant input) ≡ none)
unfolding dns_make_compliant
dns_make_compliant-IsValid input = to_lower-IsValid _ (record {
  chars =
      trim_last-chars _
        (trim_first-chars _ (replace_runs-chars hyphen false _ (bad_runs-chars false _)));
  starts = trim_last-spaced true _ (trim_first-spaced _ (replace_runs-spaced false _));
  ends = trim_last-ends true _ (trim_first-spaced _ (replace_runs-spaced false _));
})
