-- ===== src/Exec/Outcomes.antt =====
-- How a property of every outcome of a chain of calls is shown: call by call.
use dynamic_zones.Base.{Bool, true, false, ◌≡◌, inl, inr, if◌then◌else◌, Bool-cases}
use dynamic_zones.Result.{Error, Result, ok, err, Result-cases}
use dynamic_zones.Exec.{Exec, ◌>>=◌, Reply, Handler, attempt}

module _ {S A B : Type 0} (Q : Result B × S → Type 0) where
  pub bind-outcomes :
      (m : Exec S A) (f : A → Exec S B) (s : S)
      → ((e : Error) → (m s).0 ≡ err e → Q (err e, (m s).1))
      → ((a : A) → (m s).0 ≡ ok a → Q (f a (m s).1))
      → Q ((m >>= f) s)
  bind-outcomes m f s fails goes = elim (Result-cases (m s).0) [
    | inl (a, e) ↦ rw e (goes a e)
    | inr (x, e) ↦ rw e (fails x e)
  ]

module _ {S A : Type 0} (Q : Reply × S → Type 0) where
  pub attempt-outcomes :
      (m : Exec S A) (fail : Reply) (k : A → Handler S) (s : S)
      → ((e : Error) → (m s).0 ≡ err e → Q (fail, (m s).1))
      → ((a : A) → (m s).0 ≡ ok a → Q (k a (m s).1))
      → Q (attempt m fail k s)
  attempt-outcomes m fail k s fails goes = elim (Result-cases (m s).0) [
    | inl (a, e) ↦ rw e (goes a e)
    | inr (x, e) ↦ rw e (fails x e)
  ]

module _ {S B : Type 0} (Q : B → Type 0) where
  pub if-outcomes :
      (b : Bool) (m n : S → B) (s : S)
      → (b ≡ true → Q (m s))
      → (b ≡ false → Q (n s))
      → Q ((if b then m else n) s)
  if-outcomes b m n s holds fails = elim (Bool-cases b) [
    | inl e ↦ rw e (holds e)
    | inr e ↦ rw e (fails e)
  ]
