-- ===== src/Names/Chain.antt =====
-- `getAuthoritativeZones` of internal/app_logic.go: the zones from the SOA down to the name.
mod Ends
use mathlib.Core.List.{reverse, reverse-cons}
use native.Mathlib.Decide.{dec_lt}
use dynamic_zones.Base.{
  ℕ, zero, suc, ◌+◌, ◌-◌, ◌≤◌, ◌<◌, ◌≡◌, refl, sym, ap, ◌∙◌, ◌↔◌, ◌≢◌, ◌⊎◌, inl, inr, subst, true,
  false, List, [], ◌∷◌, ◌++◌, arith, ltb, not, if◌then◌else◌, length, length-append, drop,
}
use dynamic_zones.Text.{Text, ==_iff, trim_dot, split, join}
use dynamic_zones.Text.Laws.{==-refl, split-cons, join-split}
use dynamic_zones.Names.{part_at, same_ends, suffixes_from, get_authoritative_zones}
use dynamic_zones.Names.Chain.Ends.{ends_refl, same_ends→suffix}

-- The chain of zones that starts at a zone and puts one label after the other in front.
pub delegation_chain : Text → List Text → List Text
delegation_chain zone [] = zone ∷ []
delegation_chain zone (l ∷ ls) = zone ∷ delegation_chain (l ++ b'.' ∷ zone) ls

-- The zone at the end of that chain.
below : Text → List Text → Text
below zone [] = zone
below zone (l ∷ ls) = below (l ++ b'.' ∷ zone) ls

delegation_chain-append :
    (z : Text) (ls : List Text) (l : Text)
    → delegation_chain z (ls ++ l ∷ []) ≡ delegation_chain z ls ++ (l ++ b'.' ∷ below z ls) ∷ []
unfolding delegation_chain below
delegation_chain-append z [] l = refl
delegation_chain-append z (k ∷ ls) l = ap (◌∷◌ z) (delegation_chain-append (k ++ b'.' ∷ z) ls l)

below-append :
    (z : Text) (ls : List Text) (l : Text) → below z (ls ++ l ∷ []) ≡ l ++ b'.' ∷ below z ls
unfolding below
below-append z [] l = refl
below-append z (k ∷ ls) l = below-append (k ++ b'.' ∷ z) ls l

module _ (q : Text) (qs : List Text) where
  below-reverse :
      (ls : List Text) → below (join b'.' (q ∷ qs)) (reverse ls) ≡ join b'.' (ls ++ q ∷ qs)
  below-reverse [] = unfold below in refl
  below-reverse (l ∷ ls) =
      rw (reverse-cons l ls, below-append (join b'.' (q ∷ qs)) (reverse ls) l, below-reverse ls)
        (sym (joined ls))
    where
      joined :
          (ks : List Text) → join b'.' (l ∷ ks ++ q ∷ qs) ≡ l ++ b'.' ∷ join b'.' (ks ++ q ∷ qs)
      joined [] = unfold join in refl
      joined (k ∷ ks) = unfold join in refl

  suffixes_from-suc :
      (n i : ℕ) (p : Text) (ps : List Text)
      → suffixes_from n (suc i) (p ∷ ps) ≡ suffixes_from n i ps
  unfolding suffixes_from
  suffixes_from-suc zero i p ps = refl
  suffixes_from-suc (suc n) i p ps =
      ap (◌∷◌ (join b'.' (drop i ps))) (suffixes_from-suc n (suc i) p ps)

  suffixes_from-step :
      (n : ℕ) (l : Text) (ps : List Text)
      → suffixes_from (suc n) 0 (l ∷ ps) ≡ join b'.' (l ∷ ps) ∷ suffixes_from n 0 ps
  unfolding suffixes_from
  suffixes_from-step n l ps = ap (◌∷◌ (join b'.' (l ∷ ps))) (suffixes_from-suc n 0 l ps)

  join-below :
      (l : Text) (ls : List Text)
      → l ++ b'.' ∷ below (join b'.' (q ∷ qs)) (reverse ls) ≡ join b'.' (l ∷ ls ++ q ∷ qs)
  join-below l ls =
      sym (below-append (join b'.' (q ∷ qs)) (reverse ls) l)
      ∙ ap (below (join b'.' (q ∷ qs))) (sym (reverse-cons l ls))
      ∙ below-reverse (l ∷ ls)

  suffixes-chain :
      (ls : List Text)
      → reverse (suffixes_from (suc (length ls)) 0 (ls ++ q ∷ qs))
        ≡ delegation_chain (join b'.' (q ∷ qs)) (reverse ls)
  suffixes-chain [] = unfold suffixes_from delegation_chain in refl
  suffixes-chain (l ∷ ls) = rw (
    suffixes_from-step (suc (length ls)) l (ls ++ q ∷ qs),
    reverse-cons (join b'.' (l ∷ ls ++ q ∷ qs)),
    suffixes-chain ls,
    reverse-cons l ls,
    delegation_chain-append (join b'.' (q ∷ qs)) (reverse ls) l,
    join-below l ls,
  )

-- The body of `getAuthoritativeZones` over the parts of the two names.
abbrev chain_of : List Text → List Text → List Text
chain_of parts base =
    if ltb (length parts) (length base)
    then []
    else if not (same_ends (length base) 1 parts base)
    then []
    else reverse (suffixes_from (suc (length parts - length base)) 0 parts)

chain_of-append :
    (ls : List Text) (q : Text) (qs : List Text)
    → chain_of (ls ++ q ∷ qs) (q ∷ qs) ≡ delegation_chain (join b'.' (q ∷ qs)) (reverse ls)
chain_of-append ls q qs =
    let len = length-append {0} ls (q ∷ qs) in
    let fits : ltb (length (ls ++ q ∷ qs)) (length (q ∷ qs)) ≡ false = ground (arith, len) in
    let more : length (ls ++ q ∷ qs) - length (q ∷ qs) ≡ length ls = omega (arith, len) in
    rw (fits, ends_refl (length (q ∷ qs)) 1 ls (q ∷ qs) (omega arith), more)
      (suffixes-chain q qs ls)

delegation_chain-ne-nil : (z : Text) (ls : List Text) → delegation_chain z ls ≢ []
unfolding delegation_chain
delegation_chain-ne-nil z [] = λ e. cc
delegation_chain-ne-nil z (l ∷ ls) = λ e. cc

chain_of→suffix :
    (parts base : List Text) → chain_of parts base ≢ [] → (ls : List Text) × (parts ≡ ls ++ base)
chain_of→suffix parts base h = same_ends→suffix parts base (ground arith) (ground arith)

module _ (full_name soa_base : Text) where
  -- The labels of the name, which keep their case, end with those of the SOA.
  abbrev pub IsAtOrBelow : List Text → Type 0
  IsAtOrBelow ls = split b'.' (trim_dot full_name) ≡ ls ++ split b'.' (trim_dot soa_base)

  -- If the name is the SOA with labels in front, the result is the chain of zones that starts at
  -- the SOA and puts one of these labels after the other in front, from the last label to the
  -- first: it begins with the SOA and ends with the name.
  pub get_authoritative_zones-chain :
      (ls : List Text)
      → IsAtOrBelow ls
      → get_authoritative_zones full_name soa_base
        ≡ delegation_chain (trim_dot soa_base) (reverse ls)
  unfolding get_authoritative_zones
  get_authoritative_zones-chain ls e =
      let (q, qs, e') = split-cons b'.' (trim_dot soa_base) in
      let soa : join b'.' (q ∷ qs) ≡ trim_dot soa_base =
        rw (← e') (join-split b'.' (trim_dot soa_base)) in
      rw (e, e') (chain_of-append ls q qs ∙ ap (λ z. delegation_chain z (reverse ls)) soa)

  -- The result is empty exactly when the labels of the name do not end with those of the SOA.
  pub get_authoritative_zones-empty_iff :
      (get_authoritative_zones full_name soa_base ≡ []) ↔ ((ls : List Text) → ¬ IsAtOrBelow ls)
  get_authoritative_zones-empty_iff = (
    λ none ls e.
        delegation_chain-ne-nil (trim_dot soa_base) (reverse ls)
          (sym (get_authoritative_zones-chain ls e) ∙ none),
    λ never. elim (chain-cases (get_authoritative_zones full_name soa_base)) [
      | inl none ↦ none
      | inr some_zone ↦ let (ls, e) = found some_zone in absurd (never ls e)
    ],
  )
    where
      chain-cases : (zs : List Text) → (zs ≡ []) ⊎ (zs ≢ [])
      chain-cases [] = inl refl
      chain-cases (z ∷ zs) = inr (λ e. cc)

      found : get_authoritative_zones full_name soa_base ≢ [] → (ls : List Text) × IsAtOrBelow ls
      found h = unfold get_authoritative_zones in chain_of→suffix _ _ h
