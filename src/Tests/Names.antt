-- ===== src/Tests/Names.antt =====
-- The functions on names and labels on concrete texts.
use mathlib.Core.List.{reverse}
use dynamic_zones.Base.{◌≡◌, ◌↔◌, refl, true, List, [], ◌∷◌, ◌++◌}
use dynamic_zones.Text.{Text, txt, trim_last, trim_dot, split}
use dynamic_zones.Names.{zone_in_scope, get_authoritative_zones}
use dynamic_zones.Names.Subdomains.{labels}
use dynamic_zones.Names.Scope.{zone_in_scope_iff}
use dynamic_zones.Names.Chain.{delegation_chain, get_authoritative_zones-chain}

zone_in_scope_iff_example :
    (zone_in_scope (txt "A.de.") (txt "de") ≡ true)
    ↔ ((ls : List Text) × (labels (txt "A.de.") ≡ ls ++ labels (txt "de")))
unfolding trim_last
zone_in_scope_iff_example = zone_in_scope_iff (txt "A.de.") (txt "de") refl refl

get_authoritative_zones-chain_example :
    get_authoritative_zones (txt "a.b.z.de") (txt "z.de")
    ≡ delegation_chain (trim_dot (txt "z.de")) (reverse (txt "a" ∷ txt "b" ∷ []))
unfolding split trim_last
get_authoritative_zones-chain_example =
    get_authoritative_zones-chain (txt "a.b.z.de") (txt "z.de") (txt "a" ∷ txt "b" ∷ []) refl
