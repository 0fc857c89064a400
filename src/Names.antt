-- ===== src/Names.antt =====
-- Domain names: `isSubdomainOf` and `getAuthoritativeZones` of internal/app_logic.go, and
-- `zoneInScope` of internal/delegation_logic.go.
pub mod Subdomains
pub mod Scope
pub mod Chain
use mathlib.Core.List.{reverse}
use dynamic_zones.Base.{
  ℕ, zero, suc, ◌+◌, ◌-◌, Bool, true, false, not, ◌&&◌, ◌||◌, List, [], ◌∷◌, ltb, if◌then◌else◌,
  length, drop,
}
use dynamic_zones.Text.{Text, ◌==◌, to_lower, has_suffix, trim_dot, split, join}

unfoldable pub is_subdomain_of : Text → Text → Bool
is_subdomain_of child parent =
    let c = to_lower (trim_dot child) in
    let p = to_lower (trim_dot parent) in not (c == p) && has_suffix c (b'.' ∷ p)

unfoldable pub zone_in_scope : Text → Text → Bool
zone_in_scope zone suffix =
    let z = to_lower (trim_dot zone) in
    let s = to_lower (trim_dot suffix) in z == s || is_subdomain_of z s

abbrev pub part_at : List Text → ℕ → Text
part_at [] i = []
part_at (p ∷ ps) zero = p
part_at (p ∷ ps) (suc i) = part_at ps i

-- The loop that compares the last parts, from `i` on, for `rounds` rounds.
unfoldable pub same_ends : ℕ → ℕ → List Text → List Text → Bool
same_ends zero i parts base = true
same_ends (suc rounds) i parts base =
    part_at parts (length parts - i) == part_at base (length base - i)
    && same_ends rounds (i + 1) parts base

-- The loop that appends `strings.Join(parts[i:], ".")`.
unfoldable pub suffixes_from : ℕ → ℕ → List Text → List Text
suffixes_from zero i parts = []
suffixes_from (suc rounds) i parts = join b'.' (drop i parts) ∷ suffixes_from rounds (suc i) parts

-- A nil slice is the empty list; the loop of swaps at the end reverses the slice.
unfoldable pub get_authoritative_zones : Text → Text → List Text
unfolding same_ends suffixes_from
get_authoritative_zones full_name soa_base =
    let parts = split b'.' (trim_dot full_name) in
    let base_parts = split b'.' (trim_dot soa_base) in
    if ltb (length parts) (length base_parts)
    then []
    else if not (same_ends (length base_parts) 1 parts base_parts)
    then []
    else reverse (suffixes_from (suc (length parts - length base_parts)) 0 parts)
