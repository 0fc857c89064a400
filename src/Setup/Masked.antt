-- ===== src/Setup/Masked.antt =====
-- What the log shows of a password in a connection string (internal/app_setup.go).
use dynamic_zones.Base.{
  ℕ, ◌≡◌, ◌≢◌, refl, sym, ap, ◌∙◌, inl, inr, true, false, not, List, [], ◌∷◌, ◌++◌, map, any,
  any-append, keep, length, take, eqb, arith, Bool-cases,
}
use dynamic_zones.Text.{
  Text, txt, ◌==◌, ==_iff, to_lower, is_space, cons_first, join, contains, before, after,
}
use dynamic_zones.Text.Laws.{==-refl}
use dynamic_zones.Ownership.{keep-append}
use dynamic_zones.Setup.{mask_secret, between_blanks, fields, mask_field, mask_conn_string}

cons_first-append :
    (c : ℕ) (xs ys : List Text) → xs ≢ [] → cons_first c (xs ++ ys) ≡ cons_first c xs ++ ys
cons_first-append c [] ys h = absurd (h refl)
cons_first-append c (x ∷ xs) ys h = refl

between_blanks-ne-nil : (s : Text) → between_blanks s ≢ []
unfolding between_blanks
between_blanks-ne-nil [] h = cc
between_blanks-ne-nil (c ∷ s) h = ground arith

between_blanks-append :
    (x y : Text) → between_blanks (x ++ b' ' ∷ y) ≡ between_blanks x ++ between_blanks y
unfolding between_blanks is_space
between_blanks-append [] y = refl
between_blanks-append (c ∷ x) y = elim (Bool-cases (is_space c)) [
  | inl e ↦ rw e (ap (◌∷◌ []) (between_blanks-append x y))
  | inr e ↦ rw e (
      ap (cons_first c) (between_blanks-append x y)
      ∙ cons_first-append c (between_blanks x) (between_blanks y) (between_blanks-ne-nil x))
]

between_blanks_lem : (f : Text) → any is_space f ≡ false → between_blanks f ≡ f ∷ []
unfolding between_blanks
between_blanks_lem [] h = refl
between_blanks_lem (c ∷ f) h =
    let e : is_space c ≡ false = ground arith in
    rw e (ap (cons_first c) (between_blanks_lem f (ground arith)))

map-append : (f : Text → Text) (xs ys : List Text) → map f (xs ++ ys) ≡ map f xs ++ map f ys
map-append f [] ys = refl
map-append f (x ∷ xs) ys = ap (◌∷◌ (f x)) (map-append f xs ys)

-- A field between two others, which are masked on their own.
mask_conn_string-append :
    (x f y : Text)
    → any is_space f ≡ false
    → f ≢ []
    → mask_conn_string (x ++ b' ' ∷ (f ++ b' ' ∷ y))
      ≡ join b' ' (map mask_field (fields x) ++ mask_field f ∷ map mask_field (fields y))
unfolding mask_conn_string fields
mask_conn_string-append x f y h filled =
    let p = λ (f : Text). not (f == []) in
    let e : between_blanks (x ++ b' ' ∷ (f ++ b' ' ∷ y))
        ≡ between_blanks x ++ f ∷ between_blanks y =
      between_blanks-append x (f ++ b' ' ∷ y)
      ∙ ap (◌++◌ (between_blanks x)) (
          between_blanks-append f y
          ∙ ap (λ (l : List Text). l ++ between_blanks y) (between_blanks_lem f h)) in
    let k : keep p (between_blanks x ++ f ∷ between_blanks y) ≡ fields x ++ f ∷ fields y =
      keep-append p (between_blanks x) (f ∷ between_blanks y)
      ∙ ap (◌++◌ (fields x)) (ground (arith, ==_iff f [])) in
    ap (λ (l : List Text). join b' ' (map mask_field l)) (ap (keep p) e ∙ k)
    ∙ ap (join b' ') (map-append mask_field (fields x) (f ∷ fields y))

contains-append : (s v : Text) → contains b'=' (s ++ b'=' ∷ v) ≡ true
unfolding contains
contains-append [] v = refl
contains-append (c ∷ s) v = ground (arith, contains-append s v)

before-append : (s v : Text) → contains b'=' s ≡ false → before b'=' (s ++ b'=' ∷ v) ≡ s
unfolding contains before
before-append [] v h = refl
before-append (c ∷ s) v h =
    let e : eqb c b'=' ≡ false = ground arith in
    rw e (ap (◌∷◌ c) (before-append s v (ground arith)))

after-append : (s v : Text) → contains b'=' s ≡ false → after b'=' (s ++ b'=' ∷ v) ≡ v
unfolding contains after
after-append [] v h = refl
after-append (c ∷ s) v h =
    let e : eqb c b'=' ≡ false = ground arith in rw e (after-append s v (ground arith))

mask_field-password :
    (key v : Text)
    → contains b'=' key ≡ false
    → to_lower key ≡ txt "password"
    → mask_field (key ++ b'=' ∷ v) ≡ key ++ b'=' ∷ mask_secret v
unfolding mask_field
mask_field-password key v h e =
    rw
      (
        contains-append key v,
        before-append key v h,
        after-append key v h,
        e,
        ==-refl (txt "password"),
      )
      refl

empty-length : (s : Text) → (s == []) ≡ eqb (length s) 0
unfolding ◌==◌
empty-length [] = refl
empty-length (c ∷ s) = ground arith

pub mask_secret-eq :
    (v w : Text) → length v ≡ length w → take 4 v ≡ take 4 w → mask_secret v ≡ mask_secret w
unfolding mask_secret
mask_secret-eq v w l t = rw (empty-length v, empty-length w, l, t) refl

any-field :
    (key v : Text)
    → any is_space key ≡ false
    → any is_space v ≡ false
    → any is_space (key ++ b'=' ∷ v) ≡ false
unfolding is_space
any-field key v h k = any-append is_space key (b'=' ∷ v) ∙ ground arith

-- Two connection strings that differ in the value of a password field only, and there neither in the
-- length nor in the first four bytes, are shown alike.
pub mask_conn_string-hides :
    (x key v w y : Text)
    → to_lower key ≡ txt "password"
    → contains b'=' key ≡ false
    → any is_space key ≡ false
    → any is_space v ≡ false
    → any is_space w ≡ false
    → length v ≡ length w
    → take 4 v ≡ take 4 w
    → mask_conn_string (x ++ b' ' ∷ ((key ++ b'=' ∷ v) ++ b' ' ∷ y))
      ≡ mask_conn_string (x ++ b' ' ∷ ((key ++ b'=' ∷ w) ++ b' ' ∷ y))
mask_conn_string-hides x key v w y named single k a b l t =
    let shown = λ (u : Text) (h : any is_space u ≡ false).
      mask_conn_string-append x (key ++ b'=' ∷ u) y (any-field key u k h) (filled key u)
      ∙ ap (λ (f : Text). join b' ' (map mask_field (fields x) ++ f ∷ map mask_field (fields y)))
          (mask_field-password key u single named) in
    shown v a
    ∙ ap
        (λ (m : Text).
          join b' ' (map mask_field (fields x) ++ (key ++ b'=' ∷ m) ∷ map mask_field (fields y)))
        (mask_secret-eq v w l t)
    ∙ sym (shown w b)
  where
    filled : (key u : Text) → key ++ b'=' ∷ u ≢ []
    filled [] u h = cc
    filled (c ∷ key) u h = cc
