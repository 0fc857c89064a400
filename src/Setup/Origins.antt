-- ===== src/Setup/Origins.antt =====
-- Which origins `enableCors` of internal/app_setup.go lets through in production.
use dynamic_zones.Base.{◌≡◌, refl, false, not, ◌&&◌, List, [], ◌∷◌, any, Option, arith}
use dynamic_zones.Text.{Text, ◌==◌, ==_iff, trim_right_byte}
use dynamic_zones.Setup.{configured, allowed_origins, is_allowed_origin}

any-allowed_origins :
    (o : Text) (origins : List Text)
    → any (λ x. x == o) (allowed_origins origins)
      ≡ (any (λ x. configured x == o) origins && not (o == []))
unfolding allowed_origins
any-allowed_origins o [] = refl
any-allowed_origins o (x ∷ origins) = ground (
  arith,
  any-allowed_origins o origins,
  ==_iff (configured x) o,
  ==_iff (configured x) [],
  ==_iff o [],
)

-- In production an origin is let through exactly when something is left of it without the slashes
-- at its end, and a configured origin, without blanks around it and slashes at its end, equals that.
pub is_allowed_origin-production :
    (parse_url : Text → Option (Text × Text)) (origins : List Text) (origin : Text)
    → is_allowed_origin parse_url origins false origin ≡ (
        any (λ x. configured x == trim_right_byte b'/' origin) origins
        && not (trim_right_byte b'/' origin == []))
unfolding is_allowed_origin
is_allowed_origin-production parse_url origins origin =
    ground (arith, any-allowed_origins (trim_right_byte b'/' origin) origins)
