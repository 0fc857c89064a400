-- ===== src/Names/Chain/Ends.antt =====
-- The comparison of the last parts in `getAuthoritativeZones`.
use native.Mathlib.Decide.{dec_lt}
use dynamic_zones.Base.{
  ℕ, zero, suc, ◌+◌, ◌-◌, ◌≤◌, ◌<◌, ◌≡◌, refl, sym, ap, ◌∙◌, subst, true, List, [], ◌∷◌, ◌++◌,
  arith, length, length-append,
}
use dynamic_zones.Text.{Text, ==_iff}
use dynamic_zones.Text.Laws.{==-refl}
use dynamic_zones.Names.{part_at, same_ends}

part_at-append :
    (ls rest : List Text) (i : ℕ) → part_at (ls ++ rest) (length ls + i) ≡ part_at rest i
part_at-append [] rest i = ap (part_at rest) (omega arith)
part_at-append (l ∷ ls) rest i =
    let here : suc (length ls) + i ≡ suc (length ls + i) = omega arith in
    ap (part_at (l ∷ ls ++ rest)) here ∙ part_at-append ls rest i

end-part :
    (ls rest : List Text) (i : ℕ)
    → i ≤ length rest
    → part_at (ls ++ rest) (length (ls ++ rest) - i) ≡ part_at rest (length rest - i)
end-part ls rest i h =
    ap (part_at (ls ++ rest)) (omega (arith, length-append {0} ls rest))
    ∙ part_at-append ls rest (length rest - i)

same_ends→eq :
    (n i : ℕ) (ls rest base : List Text)
    → length rest ≡ length base
    → i + n ≡ suc (length base)
    → same_ends n i (ls ++ rest) base ≡ true
    → (k : ℕ) → i ≤ k
    → k ≤ length base
    → part_at rest (length base - k) ≡ part_at base (length base - k)
unfolding same_ends
same_ends→eq zero i ls rest base same e h k lo hi = absurd (omega arith)
same_ends→eq (suc n) i ls rest base same e h k lo hi = elim (dec_lt i k) [
  | yes lt ↦
      same_ends→eq n (i + 1) ls rest base same (omega arith) (ground arith) k (omega arith) hi
  | no ge ↦
      let here : i ≡ k = omega arith in
      rw (← here, ← same)
        (sym (end-part ls rest i (omega arith)) ∙ (==_iff _ _).0 (rw same (ground arith)))
]

pub ends_refl :
    (n i : ℕ) (ls base : List Text)
    → i + n ≡ suc (length base)
    → same_ends n i (ls ++ base) base ≡ true
unfolding same_ends
ends_refl zero i ls base e = refl
ends_refl (suc n) i ls base e =
    rw (end-part ls base i (omega arith), ==-refl (part_at base (length base - i)))
      (ends_refl n (i + 1) ls base (omega arith))

parts-eq :
    (xs ys : List Text)
    → length xs ≡ length ys
    → ((k : ℕ) → k < length ys → part_at xs k ≡ part_at ys k)
    → xs ≡ ys
parts-eq [] [] e h = refl
parts-eq [] (y ∷ ys) e h = absurd (omega arith)
parts-eq (x ∷ xs) [] e h = absurd (omega arith)
parts-eq (x ∷ xs) (y ∷ ys) e h =
    cc (h 0 (omega arith), parts-eq xs ys (omega arith) (λ k lt. h (suc k) (omega arith)))

split_at :
    (n : ℕ) (xs : List Text)
    → n ≤ length xs
    → (ls : List Text) × (rest : List Text) × (xs ≡ ls ++ rest) × (length ls ≡ n)
split_at zero xs h = ([], xs, refl, refl)
split_at (suc n) [] h = absurd (omega arith)
split_at (suc n) (x ∷ xs) h =
    let (ls, rest, e, len) = split_at n xs (omega arith) in (x ∷ ls, rest, ap (◌∷◌ x) e, ap suc len)

pub same_ends→suffix :
    (parts base : List Text)
    → length base ≤ length parts
    → same_ends (length base) 1 parts base ≡ true
    → (ls : List Text) × (parts ≡ ls ++ base)
same_ends→suffix parts base le h =
    let (ls, rest, e, len) = split_at (length parts - length base) parts (omega arith) in
    let same : length rest ≡ length base = omega (arith, ap length e, length-append {0} ls rest) in
    let at_end = same_ends→eq (length base) 1 ls rest base same (omega arith) (rw (← e) h) in
    (
      ls,
      e
          ∙ ap (◌++◌ ls) (
              parts-eq rest base same λ k lt.
                subst (λ m. part_at rest m ≡ part_at base m) (omega arith)
                  (at_end (length base - k) (omega arith) (omega arith))),
    )
