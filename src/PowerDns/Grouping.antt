-- ===== src/PowerDns/Grouping.antt =====
-- The grouping of the default records in `prepareZoneForCreation` of internal/powerdns_client.go:
-- records that share a name and a type end up in one RRset.
use dynamic_zones.Base.{
  ℕ, eqb, ◌+◌, ◌≤◌, ◌≡◌, refl, sym, ap, ◌∙◌, inl, inr, [], ◌∷◌, ◌++◌, Bool, ◌&&◌, List, arith,
  append_assoc, append-nil, if◌then◌else◌, Bool-cases,
}
use dynamic_zones.Text.{Text, ◌==◌, ==_iff}
use dynamic_zones.PowerDns.Definition.{
  DefaultRecord, RRset, rrset_key, add_record, record_name, group_records,
}

abbrev pub has_key : Text → RRset → Bool
has_key key s = rrset_key s.name s.rtype == key

-- The contents of the first RRset of a key, and how many RRsets have it.
abbrev pub contents_at : Text → List RRset → List Text
contents_at key [] = []
contents_at key (s ∷ sets) = if has_key key s then s.contents else contents_at key sets

abbrev pub times : Text → List RRset → ℕ
times key [] = 0
times key (s ∷ sets) = (if has_key key s then 1 else 0) + times key sets

-- The contents of the records that belong to a key, in their order.
abbrev pub contents_for : (Text → Text) → Text → Text → List DefaultRecord → List Text
contents_for fqdn zone key [] = []
contents_for fqdn zone key (r ∷ records) =
    let rest = contents_for fqdn zone key records in
    if rrset_key (record_name fqdn zone r) r.rtype == key then r.content ∷ rest else rest

add_record-contents_at :
    (key fqdn : Text) (r : DefaultRecord) (sets : List RRset)
    → contents_at key (add_record fqdn r sets) ≡ (
        if rrset_key fqdn r.rtype == key
        then contents_at key sets ++ r.content ∷ []
        else contents_at key sets)
unfolding add_record
add_record-contents_at key fqdn r [] = refl
add_record-contents_at key fqdn r (s ∷ sets) = ground (
  arith,
  add_record-contents_at key fqdn r sets,
  ==_iff (rrset_key s.name s.rtype) (rrset_key fqdn r.rtype),
  ==_iff (rrset_key s.name s.rtype) key,
  ==_iff (rrset_key fqdn r.rtype) key,
)

add_record-times :
    (key fqdn : Text) (r : DefaultRecord) (sets : List RRset)
    → times key (add_record fqdn r sets)
      ≡ (if rrset_key fqdn r.rtype == key && eqb (times key sets) 0 then 1 else times key sets)
unfolding add_record
add_record-times key fqdn r [] = ground arith
add_record-times key fqdn r (s ∷ sets) = ground (
  arith,
  add_record-times key fqdn r sets,
  ==_iff (rrset_key s.name s.rtype) (rrset_key fqdn r.rtype),
  ==_iff (rrset_key s.name s.rtype) key,
  ==_iff (rrset_key fqdn r.rtype) key,
)

group-contents_at :
    (fqdn : Text → Text) (zone key : Text) (records : List DefaultRecord) (sets : List RRset)
    → contents_at key (group_records fqdn zone records sets)
      ≡ contents_at key sets ++ contents_for fqdn zone key records
unfolding group_records
group-contents_at fqdn zone key [] sets = sym (append-nil (contents_at key sets))
group-contents_at fqdn zone key (r ∷ records) sets =
    let name = record_name fqdn zone r in
    group-contents_at fqdn zone key records (add_record name r sets)
    ∙ ap (λ (l : List Text). l ++ contents_for fqdn zone key records)
        (add_record-contents_at key name r sets)
    ∙ elim (Bool-cases (rrset_key name r.rtype == key)) [
      | inl e ↦ rw e (append_assoc (contents_at key sets) (r.content ∷ []) _)
      | inr e ↦ rw e refl
    ]

group-times :
    (fqdn : Text → Text) (zone key : Text) (records : List DefaultRecord) (sets : List RRset)
    → times key sets ≤ 1
    → times key (group_records fqdn zone records sets) ≤ 1
unfolding group_records
group-times fqdn zone key [] sets h = h
group-times fqdn zone key (r ∷ records) sets h =
    group-times fqdn zone key records (add_record (record_name fqdn zone r) r sets)
      (ground (arith, add_record-times key (record_name fqdn zone r) r sets))

-- For each name and type there is at most one RRset, and it holds the contents of all the records of
-- that name and type, in their order.
pub group_records_lem :
    (fqdn : Text → Text) (zone key : Text) (records : List DefaultRecord)
    → (contents_at key (group_records fqdn zone records []) ≡ contents_for fqdn zone key records)
      × (times key (group_records fqdn zone records []) ≤ 1)
group_records_lem fqdn zone key records =
    (group-contents_at fqdn zone key records [], group-times fqdn zone key records [] (omega arith))
