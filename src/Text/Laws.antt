-- ===== src/Text/Laws.antt =====
-- Laws of the text functions.
use dynamic_zones.Base.{
  ℕ, ◌≡◌, refl, sym, ap, ◌∙◌, inl, inr, true, List, [], ◌∷◌, ◌++◌, arith, eqb, eqb_iff,
  append_assoc, Bool-cases,
}
use dynamic_zones.Text.{Text, ◌==◌, ==_iff, has_prefix, has_suffix, split, join, cons_first}

pub ==-refl : (s : Text) → (s == s) ≡ true
==-refl s = (==_iff s s).1 refl

-- A text has a suffix exactly when it splits before it.
pub has_suffix→split : (s t : Text) → has_suffix s t ≡ true → (x : Text) × (s ≡ x ++ t)
unfolding has_suffix
has_suffix→split [] t h = ([], (==_iff [] t).0 h)
has_suffix→split (a ∷ s) t h = elim (Bool-cases ((a ∷ s) == t)) [
  | inl same ↦ ([], (==_iff (a ∷ s) t).0 same)
  | inr other ↦ let (x, e) = has_suffix→split s t (ground arith) in (a ∷ x, ap (◌∷◌ a) e)
]

pub has_suffix-append : (x t : Text) → has_suffix (x ++ t) t ≡ true
unfolding has_suffix
has_suffix-append [] [] = ground (arith, ==-refl [])
has_suffix-append [] (b ∷ t) = ground (arith, ==-refl (b ∷ t))
has_suffix-append (a ∷ x) t = ground (arith, has_suffix-append x t)

pub has_prefix-append : (t x : Text) → has_prefix (t ++ x) t ≡ true
unfolding has_prefix
has_prefix-append [] x = refl
has_prefix-append (b ∷ t) x = ground (arith, has_prefix-append t x)

pub has_prefix→split : (s t : Text) → has_prefix s t ≡ true → (x : Text) × (s ≡ t ++ x)
unfolding has_prefix
has_prefix→split s [] h = (s, refl)
has_prefix→split [] (b ∷ t) h = cc
has_prefix→split (a ∷ s) (b ∷ t) h =
    let (x, e) = has_prefix→split s t (ground arith) in (x, ground arith)

pub split-cons : (sep : ℕ) (s : Text) → (p : Text) × (ps : List Text) × (split sep s ≡ p ∷ ps)
unfolding split
split-cons sep [] = ([], [], refl)
split-cons sep (c ∷ s) =
    let (p, ps, e) = split-cons sep s in
    elim (Bool-cases (eqb c sep)) [
      | inl here ↦ ([], split sep s, rw here)
      | inr other ↦ (c ∷ p, ps, rw (other, e))
    ]

join-cons_first :
    (sep c : ℕ) (p : Text) (ps : List Text)
    → join sep (cons_first c (p ∷ ps)) ≡ c ∷ join sep (p ∷ ps)
unfolding join
join-cons_first sep c p [] = refl
join-cons_first sep c p (q ∷ qs) = refl

pub join-cons :
    (sep : ℕ) (part p : Text) (ps : List Text)
    → join sep (part ∷ p ∷ ps) ≡ part ++ sep ∷ join sep (p ∷ ps)
unfolding join
join-cons sep part p ps = refl

-- Joining the parts gives back the text.
pub join-split : (sep : ℕ) (s : Text) → join sep (split sep s) ≡ s
unfolding split
join-split sep [] = unfold join in refl
join-split sep (c ∷ s) =
    let (p, ps, e) = split-cons sep s in
    let same : join sep (p ∷ ps) ≡ s = rw (← e) (join-split sep s) in
    elim (Bool-cases (eqb c sep)) [
      | inl here ↦ rw (here, e, join-cons, same) (ground (arith, eqb_iff c sep))
      | inr other ↦ rw (other, e) (join-cons_first sep c p ps ∙ ap (◌∷◌ c) same)
    ]

cons_first-append :
    (c : ℕ) (sep : ℕ) (x : Text) (ys : List Text)
    → cons_first c (split sep x ++ ys) ≡ cons_first c (split sep x) ++ ys
cons_first-append c sep x ys = let (p, ps, e) = split-cons sep x in rw e

pub split-append : (sep : ℕ) (x y : Text) → split sep (x ++ sep ∷ y) ≡ split sep x ++ split sep y
unfolding split
split-append sep [] y = rw ((eqb_iff sep sep).1 refl)
split-append sep (c ∷ x) y = elim (Bool-cases (eqb c sep)) [
  | inl here ↦ rw here (ap (◌∷◌ []) (split-append sep x y))
  | inr other ↦ rw (other, split-append sep x y) (cons_first-append c sep x (split sep y))
]

pub join-append :
    (sep : ℕ) (p q : Text) (ps qs : List Text)
    → join sep ((p ∷ ps) ++ q ∷ qs) ≡ join sep (p ∷ ps) ++ sep ∷ join sep (q ∷ qs)
unfolding join
join-append sep p q [] qs = refl
join-append sep p q (r ∷ ps) qs =
    rw (join-append sep r q ps qs) (sym (append_assoc p (sep ∷ join sep (r ∷ ps)) _))
