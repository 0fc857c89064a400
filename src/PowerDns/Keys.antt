-- ===== src/PowerDns/Keys.antt =====
-- internal/helper/tsig_key_generator.go: the hash in the names of keys, and new secrets. SHA-1 and the
-- random bytes are parameters.
use dynamic_zones.Base.{ℕ, List, [], ◌∷◌, ◌≢◌, refl, inl, inr}
use dynamic_zones.Text.{Text, hex, base64}
use dynamic_zones.Result.{Result-cases}
use dynamic_zones.Exec.{Exec, pure, ◌>>=◌}
use dynamic_zones.PowerDns.{Pdns, IsPdns, Does}

module _ ⦃pdns : Pdns⦄ where
  unfoldable pub sha1_hash : Text → Text
  unfolding hex
  sha1_hash input = hex (pdns.sha1 input)

  unfoldable pub generate_tsig_key : Exec pdns.State Text
  unfolding base64
  generate_tsig_key = do key ← pdns.read_random 64; pure (base64 key)

  pub generate_tsig_key-Does : (is : IsPdns pdns) → Does generate_tsig_key (λ v. v)
  unfolding generate_tsig_key
  generate_tsig_key-Does is s = elim (Result-cases (pdns.read_random 64 s).0) [
    | inl (a, e) ↦ ((λ k h. rw e ((is.reads_random 64 s).0 a e)), λ x h. cc)
    | inr (x, e) ↦ ((λ k h. cc), λ y h. rw e ((is.reads_random 64 s).1 x e))
  ]

  pub sha1_hash-ne-nil : (is : IsPdns pdns) (x : Text) → sha1_hash x ≢ []
  unfolding sha1_hash hex
  sha1_hash-ne-nil is x h = filled (pdns.sha1 x) (is.sha1-ne-nil x) h
    where
      filled : (bytes : List ℕ) → bytes ≢ [] → hex bytes ≢ []
      filled [] ne h = ne refl
      filled (b ∷ bytes) ne h = cc
