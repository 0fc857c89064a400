-- ===== src/Routes/Changes/Untouched.antt =====
-- What callers who may not manage a zone can do to its rules.
use dynamic_zones.Base.{
  ℕ, ◌≡◌, refl, sym, ap, ◌∙◌, inl, inr, Bool, true, false, not, ◌&&◌, List, [], ◌∷◌, any,
  append-nil, all, keep, map, eqb, eqb_iff, arith, Bool-cases, if◌then◌else◌,
}
use mathlib.Core.Bool.{false≢true}
use dynamic_zones.Text.{Text, ◌==◌, ==_iff}
use dynamic_zones.Model.{PolicyRule, UserClaims}
use dynamic_zones.Result.{ok, Result-cases}
use dynamic_zones.Database.{Database, Policies, WritesRules, updated_by}
use dynamic_zones.Ownership.{keep-append}
use dynamic_zones.App.{App, DnsClient, is_super_admin}
use dynamic_zones.Delegations.{covers}
use dynamic_zones.Routes.Authorised.{MayManage}
use dynamic_zones.Routes.Changes.Steps.{
  Change, change, run_changes, Written, unchanged, created, updated, deleted, delegated,
}
use dynamic_zones.Routes.Changes.Writes.{change-Written}

abbrev pub of_soa : Text → PolicyRule → Bool
of_soa zone_soa r = r.zone_soa == zone_soa

-- The user is no super-admin, and no delegation gives the user the zone.
abbrev pub may_not_manage : ⦃db : Database⦄ → App → Text → db.Db → UserClaims → Bool
may_not_manage ⦃db⦄ app zone_soa d user =
    not (is_super_admin app user) && not (any (covers user zone_soa) (db.delegations d))

any-keep :
    (p q : PolicyRule → Bool) (rs : List PolicyRule) → any p (keep q rs) ≡ any (λ r. q r && p r) rs
any-keep p q [] = refl
any-keep p q (r ∷ rs) = ground (arith, any-keep p q rs)

keep-updated :
    (p q : PolicyRule → Bool) (f : PolicyRule → PolicyRule) (rs : List PolicyRule)
    → ((r : PolicyRule) → p (f r) ≡ false)
    → any (λ r. q r && p r) rs ≡ false
    → keep p (map (λ r. if q r then f r else r) rs) ≡ keep p rs
keep-updated p q f [] h k = refl
keep-updated p q f (r ∷ rs) h k = elim (Bool-cases (q r)) [
  | inl e ↦
      let other : p r ≡ false = ground arith in
      rw (e, h r, other) (keep-updated p q f rs h (ground arith))
  | inr e ↦ rw e (ground (arith, keep-updated p q f rs h))
]

keep-rest :
    (p q : PolicyRule → Bool) (rs : List PolicyRule)
    → any (λ r. q r && p r) rs ≡ false
    → keep p (keep (λ r. not (q r)) rs) ≡ keep p rs
keep-rest p q [] h = refl
keep-rest p q (r ∷ rs) h = ground (arith, keep-rest p q rs)

-- What is kept passes the test.
keep-head :
    (q : PolicyRule → Bool) (rs : List PolicyRule) (x : PolicyRule)
    → keep q rs ≡ x ∷ []
    → q x ≡ true
keep-head q rs x e = elim (Bool-cases (q x)) [
  | inl e ↦ e
  | inr f ↦
      let only : any (λ r. not (q r)) (keep q rs) ≡ true = rw (e, f) refl in
      absurd (false≢true (sym (none_kept q rs) ∙ only))
]
  where
    none_kept :
        (q : PolicyRule → Bool) (rs : List PolicyRule) → any (λ r. not (q r)) (keep q rs) ≡ false
    none_kept q [] = refl
    none_kept q (r ∷ rs) = ground (arith, none_kept q rs)

module _ ⦃db : Database⦄ (policies : Policies db) (writes : WritesRules db) (app : App) where
  -- The rules of the zone and all delegations are the same.
  abbrev pub Untouched : Text → db.Db → db.Db → Type 0
  Untouched z d after =
      (keep (of_soa z) (db.rules after) ≡ keep (of_soa z) (db.rules d))
      × (db.delegations after ≡ db.delegations d)

  other_soa :
      (user : UserClaims) (z soa : Text) (d : db.Db)
      → may_not_manage app z d user ≡ true
      → MayManage app user soa d
      → (soa == z) ≡ false
  other_soa user z soa d denied may = elim (Bool-cases (soa == z)) [
    | inr e ↦ e
    | inl e ↦ absurd (refuted (rw ((==_iff soa z).0 e) at may))
  ]
    where
      refuted : MayManage app user z d → ⊥
      refuted (inl super) = ground arith
      refuted (inr c) = ground arith

  -- No row of the identifier of a rule of another zone is a rule of the zone.
  no_row :
      (z : Text) (id : ℕ) (existing : PolicyRule) (d : db.Db)
      → db.first_rule id d ≡ ok existing
      → of_soa z existing ≡ false
      → any (λ r. eqb r.id id && of_soa z r) (db.rules d) ≡ false
  no_row z id existing d found other =
      let only = writes.first_rule_ok id d existing found in
      sym (any-keep (of_soa z) (λ r. eqb r.id id) (db.rules d))
      ∙ ap (any (of_soa z)) only
      ∙ rw other refl

  create-Untouched :
      (z : Text) (row : PolicyRule) (d : db.Db)
      → of_soa z row ≡ false
      → keep (of_soa z) (db.rules (db.create_rule row d).1) ≡ keep (of_soa z) (db.rules d)
  create-Untouched z row d other = elim (Result-cases (db.create_rule row d).0) [
    | inl (s, e) ↦
        let (same, after) = policies.create_rule_ok row d s e in
        let also : of_soa z s ≡ false = ap (of_soa z) same ∙ other in
        ap (keep (of_soa z)) after
        ∙ keep-append (of_soa z) (db.rules d) (s ∷ [])
        ∙ rw also (append-nil (keep (of_soa z) (db.rules d)))
    | inr (x, e) ↦ ap (keep (of_soa z)) (writes.create_rule_err row d x e)
  ]

  update-Untouched :
      (z : Text) (id : ℕ) (existing rule : PolicyRule) (d : db.Db)
      → db.first_rule id d ≡ ok existing
      → rule.id ≡ existing.id
      → of_soa z existing ≡ false
      → of_soa z rule ≡ false
      → keep (of_soa z) (db.rules (db.update_rule rule d).1) ≡ keep (of_soa z) (db.rules d)
  update-Untouched z id existing rule d found same old new =
      elim (Result-cases (db.update_rule rule d).0) [
        | inl (n, e) ↦
            let has_id =
              keep-head (λ s. eqb s.id id) (db.rules d) existing
                (writes.first_rule_ok id d existing found) in
            let its_id : rule.id ≡ id = same ∙ (eqb_iff existing.id id).0 has_id in
            ap (keep (of_soa z)) (writes.update_rule_ok rule d n e)
            ∙ keep-updated (of_soa z) (λ s. eqb s.id rule.id) (updated_by rule) (db.rules d)
                (λ s. new) (with_id its_id (no_row z id existing d found old))
        | inr (x, e) ↦ ap (keep (of_soa z)) (writes.update_rule_err rule d x e)
      ]
    where
      with_id :
          rule.id ≡ id
          → any (λ r. eqb r.id id && of_soa z r) (db.rules d) ≡ false
          → any (λ r. eqb r.id rule.id && of_soa z r) (db.rules d) ≡ false
      with_id e h = ap (λ n. any (λ r. eqb r.id n && of_soa z r) (db.rules d)) e ∙ h

  delete-Untouched :
      (z : Text) (id : ℕ) (existing : PolicyRule) (d : db.Db)
      → db.first_rule id d ≡ ok existing
      → of_soa z existing ≡ false
      → keep (of_soa z) (db.rules (db.delete_rule id d).1) ≡ keep (of_soa z) (db.rules d)
  delete-Untouched z id existing d found other = elim (Result-cases (db.delete_rule id d).0) [
    | inl (n, e) ↦
        ap (keep (of_soa z)) (writes.delete_rule_ok id d n e)
        ∙ keep-rest (of_soa z) (λ s. eqb s.id id) (db.rules d) (no_row z id existing d found other)
    | inr (x, e) ↦ ap (keep (of_soa z)) (writes.delete_rule_err id d x e)
  ]

  Written-Untouched :
      (user : UserClaims) (z : Text) (d after : db.Db)
      → may_not_manage app z d user ≡ true
      → Written app user d after
      → Untouched z d after
  Written-Untouched user z d after denied (unchanged e) =
      (ap (λ x. keep (of_soa z) (db.rules x)) e, ap db.delegations e)
  Written-Untouched user z d after denied (created row valid may e) = (
    ap (λ x. keep (of_soa z) (db.rules x)) e
        ∙ create-Untouched z row d (other_soa user z row.zone_soa d denied may),
    ap db.delegations e ∙ (writes.rules_keep_delegations row 0 d).0,
  )
  Written-Untouched user z d after denied (updated id x rule found same valid m n e) = (
    ap (λ x. keep (of_soa z) (db.rules x)) e
        ∙ update-Untouched z id x rule d found same (other_soa user z x.zone_soa d denied m)
            (other_soa user z rule.zone_soa d denied n),
    ap db.delegations e ∙ (writes.rules_keep_delegations rule 0 d).1,
  )
  Written-Untouched user z d after denied (deleted id x found may e) = (
    ap (λ x. keep (of_soa z) (db.rules x)) e
        ∙ delete-Untouched z id x d found (other_soa user z x.zone_soa d denied may),
    ap db.delegations e ∙ (writes.rules_keep_delegations x id d).2,
  )
  Written-Untouched user z d after denied (delegated p id super e) = absurd (ground arith)

  -- The rules of a zone and all delegations are the same after any sequence of calls by users who are
  -- no super-admins and to whom no delegation gives the zone.
  pub run_changes-Untouched :
      ⦃dns : DnsClient⦄ (z : Text) (changes : List (UserClaims × Change)) (w : db.Db × dns.State)
      → all (λ x. may_not_manage app z w.0 x.0) changes ≡ true
      → Untouched z w.0 (run_changes app changes w).0
  unfolding run_changes
  run_changes-Untouched z [] w h = (refl, refl)
  run_changes-Untouched ⦃dns⦄ z ((user, c) ∷ changes) w h =
      let denied : may_not_manage app z w.0 user ≡ true = ground arith in
      let step = Written-Untouched user z w.0 _ denied (change-Written policies app user c w) in
      let later : all (λ x. may_not_manage app z w.0 x.0) changes ≡ true = ground arith in
      let rest = run_changes-Untouched z changes (change app user c w).1 (as_before step.1 later) in
      (rest.0 ∙ step.0, rest.1 ∙ step.1)
    where
      as_before :
          db.delegations (change app user c w).1.0 ≡ db.delegations w.0
          → all (λ x. may_not_manage app z w.0 x.0) changes ≡ true
          → all (λ x. may_not_manage app z (change app user c w).1.0 x.0) changes ≡ true
      as_before e h = rw e h
