-- ===== src/Routes/Listing/Outcomes.antt =====
-- What a listing of internal/routes_zones.go gives when nothing fails, query by query.
use dynamic_zones.Base.{
  ◌≡◌, refl, subst, Bool, true, false, List, [], ◌∷◌, ◌++◌, String, arith, if◌then◌else◌,
}
use dynamic_zones.Model.{ZoneStatus}
use dynamic_zones.Result.{Result, ok, err}
use dynamic_zones.Exec.{reply, zones_available}
use dynamic_zones.Routes.Listing.{Listing, gives, fails, ◌>>=◌, asked, listed}

pub listed-eq :
    (l : Listing (List ZoneStatus)) (sts : List ZoneStatus)
    → listed l ≡ reply 200 (zones_available sts)
    → l ≡ gives sts
listed-eq (gives zs) sts h = ground arith
listed-eq (fails msg) sts h = ground arith

-- If the listing gives a value, it satisfies `Q`.
abbrev pub Gives : {A : Type 0} → Listing A → (A → Type 0) → Type 0
Gives {A} m Q = (a : A) → m ≡ gives a → Q a

module _ {B : Type 0} (Q : B → Type 0) where
  pub gives-Gives : (b : B) → Q b → Gives (gives b) Q
  gives-Gives b q a h = subst Q (cc) q

  pub bind-Gives :
      {A : Type 0} (m : Listing A) (f : A → Listing B)
      → ((a : A) → m ≡ gives a → Gives (f a) Q)
      → Gives (m >>= f) Q
  bind-Gives (gives a) f go = go a refl
  bind-Gives (fails msg) f go = λ b h. cc

  pub ask-Gives :
      {A : Type 0} (r : Result A) (msg : String) (f : A → Listing B)
      → ((a : A) → r ≡ ok a → Gives (f a) Q)
      → Gives (asked r msg >>= f) Q
  ask-Gives (ok a) msg f go = go a refl
  ask-Gives (err e) msg f go = λ b h. cc

  pub if-Gives :
      (b : Bool) (m n : Listing B)
      → (b ≡ true → Gives m Q)
      → (b ≡ false → Gives n Q)
      → Gives (if b then m else n) Q
  if-Gives true m n holds other = holds refl
  if-Gives false m n holds other = other refl

abbrev pub Each : {A : Type 0} → (A → Type 0) → List A → Type 0
Each P [] = Unit
Each P (x ∷ xs) = P x × Each P xs

pub Each-append :
    {A : Type 0} (P : A → Type 0) (xs ys : List A) → Each P xs → Each P ys → Each P (xs ++ ys)
Each-append P [] ys h k = k
Each-append P (x ∷ xs) ys (p, h) k = (p, Each-append P xs ys h k)
