-- ===== src/PowerDns/Returns.antt =====
-- The calls of the client that tell failures apart, and what the server's calls leave as it was.
use dynamic_zones.Base.{◌≡◌, ◌⊎◌, inl, inr, Option, none, some}
use dynamic_zones.Result.{Error, ok, err, Result-cases}
use dynamic_zones.Exec.{Exec}
use dynamic_zones.Exec.Returns.{Returns}
use dynamic_zones.PowerDns.{Pdns, View, Does}
use dynamic_zones.PowerDns.Client.{trying}

module _ {ℓ} {S B : Type 0} (Q : B → S → Type ℓ) where
  pub trying-Returns :
      {A : Type 0} (m : Exec S A) (k : Option A → Exec S B) (s : S)
      → ((a : A) → (m s).0 ≡ ok a → Returns (k (some a)) (m s).1 Q)
      → ((e : Error) → (m s).0 ≡ err e → Returns (k none) (m s).1 Q)
      → Returns (trying m k) s Q
  trying-Returns m k s goes fails = elim (Result-cases (m s).0) [
    | inl (a, e) ↦ rw (e, trying) (goes a e)
    | inr (x, e) ↦ rw (e, trying) (fails x e)
  ]

-- A call that reads leaves the view, whether it succeeds or not.
pub kept :
    ⦃pdns : Pdns⦄ {A : Type 0} (m : Exec pdns.State A) (s : pdns.State)
    → Does ⦃pdns = pdns⦄ m (λ v. v)
    → pdns.view (m s).1 ≡ pdns.view s
kept m s d = elim (Result-cases (m s).0) [ inl (a, e) ↦ (d s).0 a e | inr (x, e) ↦ (d s).1 x e ]

-- Any call either makes its change or leaves the view.
pub done_or_kept :
    ⦃pdns : Pdns⦄ {A : Type 0} (m : Exec pdns.State A) (change : View → View) (s : pdns.State)
    → Does ⦃pdns = pdns⦄ m change
    → (pdns.view (m s).1 ≡ change (pdns.view s)) ⊎ (pdns.view (m s).1 ≡ pdns.view s)
done_or_kept m change s d = elim (Result-cases (m s).0) [
  | inl (a, e) ↦ inl ((d s).0 a e)
  | inr (x, e) ↦ inr ((d s).1 x e)
]
