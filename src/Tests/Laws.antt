-- ===== src/Tests/Laws.antt =====
-- The database in memory satisfies the laws.
use dynamic_zones.Base.{
  suc, ◌≡◌, refl, sym, ap, ◌∙◌, inl, inr, Bool, true, false, not, ◌&&◌, ◌||◌, List, [], ◌∷◌, ◌++◌,
  arith, any, keep, map, length, eqb, Bool-cases, if◌then◌else◌,
}
use dynamic_zones.Text.{Text, ◌==◌, ==_iff}
use dynamic_zones.Model.{Zone, Token, PolicyRule}
use dynamic_zones.Result.{Error, ok, err, not_found, failed, ok-inj, Result-cases}
use dynamic_zones.Database.{
  ReadsZones, WritesZones, ReadsTokens, WritesTokens, DeletesTokens, KeepsTables, Policies,
  WritesRules, updated_by,
}
use dynamic_zones.Tests.Memory.{Rows, memory, first, sole, distinct, users, write}

any-kept_distinct :
    (u : Text) (us : List Text) → any (λ w. w == u) (distinct us) ≡ any (λ w. w == u) us
any-kept_distinct u [] = refl
any-kept_distinct u (v ∷ us) = elim (Bool-cases (any (λ w. w == v) us)) [
  | inl e ↦ ground (arith, any-kept_distinct u us, ==_iff v u, λ (h : v ≡ u). rw h at e)
  | inr e ↦ ground (arith, any-kept_distinct u us)
]

failed_not_ok : {A : Type 0} (x : A) → err failed ≡ ok x → ⊥
failed_not_ok x h = cc

missing_not_ok : {A : Type 0} (x : A) → err not_found ≡ ok x → ⊥
missing_not_ok x h = cc

ok_not_err : {A : Type 0} (a : A) (x : Error) → ok a ≡ err x → ⊥
ok_not_err a x h = cc

any-distinct_cons :
    (u v : Text) (us : List Text)
    → any (λ w. w == u) (distinct (v ∷ us)) ≡ (v == u || any (λ w. w == u) (distinct us))
any-distinct_cons u v us = elim (Bool-cases (any (λ w. w == v) us)) [
  | inl e ↦ rw e (elim (Bool-cases (v == u)) [
    | inl same ↦ rw same (rw ((==_iff v u).0 same) at (any-kept_distinct v us ∙ e))
    | inr other ↦ rw other refl
  ])
  | inr e ↦ rw e refl
]

write_ok :
    {A : Type 0} (a x : A) (after d : Rows)
    → (write a after d).0 ≡ ok x
    → ((write a after d).1 ≡ after) × (x ≡ a)
write_ok a x after d h = elim (Bool-cases d.broken) [
  | inl e ↦ absurd (failed_not_ok x (rw e at h))
  | inr e ↦ (rw e refl, sym (ok-inj (rw e at h)))
]

write_err :
    {A : Type 0} (a : A) (after d : Rows) (x : Error)
    → (write a after d).0 ≡ err x
    → (write a after d).1 ≡ d
write_err a after d x h = elim (Bool-cases d.broken) [
  | inl e ↦ rw e refl
  | inr e ↦ absurd (ok_not_err a x (rw e at h))
]

any-distinct :
    (p : Zone → Bool) (u : Text) (zs : List Zone)
    → any (λ v. v == u) (distinct (users (keep p zs))) ≡ any (λ z. p z && z.username == u) zs
any-distinct p u [] = refl
any-distinct p u (z ∷ zs) = elim (Bool-cases (p z)) [
  | inl e ↦ rw e (
      any-distinct_cons u z.username (users (keep p zs))
      ∙ ap (λ b. z.username == u || b) (any-distinct p u zs))
  | inr e ↦ rw e (any-distinct p u zs)
]

pub memory_reads : ReadsZones memory
memory_reads = record {
  find = λ p d zs h. sym (ok-inj h);
  count = λ p d n h. sym (ok-inj h);
  pluck = λ p d us h u. ap (any (λ v. v == u)) (sym (ok-inj h)) ∙ any-distinct p u d.zone_rows;
  by_name = λ d zs h p. ap (any p) (sym (ok-inj h));
}

pub memory_writes : WritesZones memory
memory_writes = record {
  create_ok = λ z d h.
      ap (λ r. r.zone_rows) (write_ok tt tt (record d { zone_rows = d.zone_rows ++ z ∷ [] }) d h).0;
  create_err = λ z d e h.
      ap (λ r. r.zone_rows) (write_err tt (record d { zone_rows = d.zone_rows ++ z ∷ [] }) d e h);
  delete_ok = λ p d n h.
      ap (λ r. r.zone_rows)
        (write_ok (length (keep p d.zone_rows)) n
          (record d { zone_rows = keep (λ z. not (p z)) d.zone_rows }) d h).0;
  delete_err = λ p d e h.
      ap (λ r. r.zone_rows)
        (write_err (length (keep p d.zone_rows))
          (record d { zone_rows = keep (λ z. not (p z)) d.zone_rows }) d e h);
}

first_ok :
    (p : Token → Bool) (ts : List Token) (t : Token)
    → first (keep p ts) ≡ ok t
    → (p t ≡ true) × ((q : Token → Bool) → q t ≡ true → any q ts ≡ true)
first_ok p [] t h = absurd (missing_not_ok t h)
first_ok p (u ∷ ts) t h = elim (Bool-cases (p u)) [
  | inl e ↦
      let same : u ≡ t = ok-inj (rw e at h) in
      (rw (← same) e, λ q k. let first_is : q u ≡ true = rw same k in ground arith)
  | inr e ↦ let (a, b) = first_ok p ts t (rw e at h) in (a, λ q k. ground (arith, b q k))
]

first_none :
    (p : Token → Bool) (ts : List Token) → first (keep p ts) ≡ err not_found → any p ts ≡ false
first_none p [] h = refl
first_none p (u ∷ ts) h = elim (Bool-cases (p u)) [
  | inl e ↦ absurd (ok_not_err u not_found (rw e at h))
  | inr e ↦ ground (arith, first_none p ts (rw e at h))
]

pub memory_reads_tokens : ReadsTokens memory
memory_reads_tokens = record {
  take_ok = λ p d t h. first_ok p d.token_rows t h;
  take_none = λ p d h. first_none p d.token_rows h;
  find_tokens = λ p d ts h. sym (ok-inj h);
}

pub memory_writes_tokens : WritesTokens memory
memory_writes_tokens = record {
  create_token_ok = λ t d u h.
      let row : Token = record t { id = suc (length d.token_rows) } in
      let (after, same) = write_ok row u (record d { token_rows = d.token_rows ++ row ∷ [] }) d h in
      (rw same refl, rw same (ap (λ r. r.token_rows) after));
}

pub memory_policies : Policies memory
memory_policies = record {
  find_delegations = λ d ds h. sym (ok-inj h);
  create_rule_ok = λ r d s h.
      let row : PolicyRule = record r { id = suc (length d.rule_rows) } in
      let (after, same) = write_ok row s (record d { rule_rows = d.rule_rows ++ row ∷ [] }) d h in
      (rw same refl, rw same (ap (λ r. r.rule_rows) after));
}

pub memory_deletes_tokens : DeletesTokens memory
memory_deletes_tokens = record {
  delete_tokens_ok = λ p d n h.
      let after = record d { token_rows = keep (λ t. not (p t)) d.token_rows } in
      let (gone, same) = write_ok (length (keep p d.token_rows)) n after d h in
      (ap (λ r. r.token_rows) gone, same);
  delete_tokens_err = λ p d e h.
      ap (λ r. r.token_rows)
        (write_err (length (keep p d.token_rows))
          (record d { token_rows = keep (λ t. not (p t)) d.token_rows }) d e h);
}

sole_ok : (rs : List PolicyRule) (r : PolicyRule) → sole rs ≡ ok r → rs ≡ r ∷ []
sole_ok [] r h = absurd (missing_not_ok r h)
sole_ok (x ∷ []) r h = ap (λ y. y ∷ []) (ok-inj h)
sole_ok (x ∷ y ∷ rs) r h = absurd (missing_not_ok r h)

-- What a write leaves alone, whether it fails or not.
write_keeps :
    {A B : Type 0} (f : Rows → B) (a : A) (after d : Rows)
    → f after ≡ f d
    → f (write a after d).1 ≡ f d
write_keeps f a after d h = elim (Result-cases (write a after d).0) [
  | inl (x, e) ↦ ap f (write_ok a x after d e).0 ∙ h
  | inr (x, e) ↦ ap f (write_err a after d x e)
]

pub memory_writes_rules : WritesRules memory
memory_writes_rules = record {
  first_rule_ok = λ id d r h. sole_ok (keep (λ s. eqb s.id id) d.rule_rows) r h;
  create_rule_err = λ r d e h.
      let row : PolicyRule = record r { id = suc (length d.rule_rows) } in
      ap (λ x. x.rule_rows)
        (write_err row (record d { rule_rows = d.rule_rows ++ row ∷ [] }) d e h);
  update_rule_ok = λ r d n h.
      ap (λ x. x.rule_rows)
        (write_ok (length (keep (λ s. eqb s.id r.id) d.rule_rows)) n
          (record d {
            rule_rows = map (λ s. if eqb s.id r.id then updated_by r s else s) d.rule_rows;
          })
          d h).0;
  update_rule_err = λ r d e h.
      ap (λ x. x.rule_rows)
        (write_err (length (keep (λ s. eqb s.id r.id) d.rule_rows))
          (record d {
            rule_rows = map (λ s. if eqb s.id r.id then updated_by r s else s) d.rule_rows;
          })
          d e h);
  delete_rule_ok = λ id d n h.
      ap (λ x. x.rule_rows)
        (write_ok (length (keep (λ s. eqb s.id id) d.rule_rows)) n
          (record d { rule_rows = keep (λ s. not (eqb s.id id)) d.rule_rows }) d h).0;
  delete_rule_err = λ id d e h.
      ap (λ x. x.rule_rows)
        (write_err (length (keep (λ s. eqb s.id id) d.rule_rows))
          (record d { rule_rows = keep (λ s. not (eqb s.id id)) d.rule_rows }) d e h);
  rules_keep_delegations = λ r id d. (
    write_keeps (λ x. x.delegation_rows) _ _ d refl,
    write_keeps (λ x. x.delegation_rows) _ _ d refl,
    write_keeps (λ x. x.delegation_rows) _ _ d refl,
  );
  delegations_keep_rules = λ p id d. (
    write_keeps (λ x. x.rule_rows) _ _ d refl,
    write_keeps (λ x. x.rule_rows) _ _ d refl,
    write_keeps (λ x. x.rule_rows) _ _ d refl,
  );
}

pub memory_keeps : KeepsTables memory
memory_keeps = record {
  delete_tokens_keeps = λ p d. (
    write_keeps (λ x. x.zone_rows) _ _ d refl,
    write_keeps (λ x. x.rule_rows) _ _ d refl,
    write_keeps (λ x. x.delegation_rows) _ _ d refl,
  );
}
