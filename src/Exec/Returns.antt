-- ===== src/Exec/Returns.antt =====
-- What a chain of calls returns when it succeeds, call by call.
use dynamic_zones.Base.{◌≡◌, subst, inl, inr, Bool, true, false, if◌then◌else◌, Bool-cases}
use dynamic_zones.Result.{Error, ok, Result-cases}
use dynamic_zones.Exec.{Exec, pure, raise, ◌>>=◌}

-- If the call succeeds, its value and the state after it satisfy `Q`.
abbrev pub Returns {ℓ} : {S A : Type 0} → Exec S A → S → (A → S → Type ℓ) → Type ℓ
Returns {A} m s Q = (a : A) → (m s).0 ≡ ok a → Q a (m s).1

module _ {ℓ} {S B : Type 0} (Q : B → S → Type ℓ) where
  pub pure-Returns : (b : B) (s : S) → Q b s → Returns (pure b) s Q
  pure-Returns b s q a h = subst (λ c. Q c s) (cc) q

  pub raise-Returns : (e : Error) (s : S) → Returns (raise {A = B} e) s Q
  raise-Returns e s a h = cc

  pub bind-Returns :
      {A : Type 0} (m : Exec S A) (f : A → Exec S B) (s : S)
      → ((a : A) → (m s).0 ≡ ok a → Returns (f a) (m s).1 Q)
      → Returns (m >>= f) s Q
  bind-Returns m f s goes = elim (Result-cases (m s).0) [
    | inl (a, e) ↦ rw e (goes a e)
    | inr (x, e) ↦ rw e (λ b h. cc)
  ]

  pub if-Returns :
      (b : Bool) (m n : Exec S B) (s : S)
      → (b ≡ true → Returns m s Q)
      → (b ≡ false → Returns n s Q)
      → Returns (if b then m else n) s Q
  if-Returns b m n s holds fails = elim (Bool-cases b) [
    | inl e ↦ rw e (holds e)
    | inr e ↦ rw e (fails e)
  ]
