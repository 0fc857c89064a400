-- ===== src/Setup.antt =====
-- The texts that internal/app_setup.go computes: what is logged of secrets, and which origins may call
-- the API.
pub mod Masked
pub mod Origins
pub mod Config
pub mod Environment
pub mod Loaded
pub mod Logged
pub mod Start
pub mod Wiring
use dynamic_zones.Base.{
  ℕ, Bool, true, false, not, ◌&&◌, ◌||◌, List, [], ◌∷◌, ◌++◌, map, any, keep, length, take, leb,
  Option, none, some, if◌then◌else◌,
}
use dynamic_zones.Text.{
  Text, txt, ◌==◌, to_lower, is_space, cons_first, trim_space, trim_right_byte, join, contains,
  before, after, decimal,
}
use dynamic_zones.Result.{Error, Result, ok, err}
use dynamic_zones.PowerDns.Definition.{DefaultRecord}

-- The three bytes of the ellipsis.
abbrev ellipsis : Text
ellipsis = 226 ∷ 128 ∷ 166 ∷ []

unfoldable pub mask_secret : Text → Text
unfolding decimal
mask_secret s =
    if s == []
    then []
    else if leb (length s) 4
    then txt "***"
    else take 4 s ++ ellipsis ++ txt "(len " ++ decimal (length s) ++ txt ")"

-- strings.Fields: what stands between blanks, without the empty texts.
unfoldable pub between_blanks : Text → List Text
between_blanks [] = [] ∷ []
between_blanks (c ∷ s) =
    let rest = between_blanks s in if is_space c then [] ∷ rest else cons_first c rest

unfoldable pub fields : Text → List Text
unfolding between_blanks
fields s = keep (λ f. not (f == [])) (between_blanks s)

-- The body of the loop over the fields.
unfoldable pub mask_field : Text → Text
unfolding mask_secret
mask_field f =
    if contains b'=' f && to_lower (before b'=' f) == txt "password"
    then before b'=' f ++ b'=' ∷ mask_secret (after b'=' f)
    else f

unfoldable pub mask_conn_string : Text → Text
unfolding fields mask_field
mask_conn_string dsn = join b' ' (map mask_field (fields dsn))

-- The keys of the map `allowed`.
abbrev pub configured : Text → Text
configured origin = trim_right_byte b'/' (trim_space origin)

unfoldable pub allowed_origins : List Text → List Text
allowed_origins [] = []
allowed_origins (origin ∷ origins) =
    let rest = allowed_origins origins in
    if configured origin == [] then rest else configured origin ∷ rest

abbrev is_loopback : Option (Text × Text) → Bool
is_loopback none = false
is_loopback (some (scheme, hostname)) =
    (scheme == txt "http" || scheme == txt "https")
    && (hostname == txt "localhost" || hostname == txt "127.0.0.1" || hostname == txt "::1")

-- url.Parse is a parameter: the scheme and the host name, if there is no error.
unfoldable pub is_loopback_origin : (Text → Option (Text × Text)) → Text → Bool
is_loopback_origin parse_url origin = is_loopback (parse_url origin)

-- `AllowOriginFunc` of `enableCors`.
unfoldable pub is_allowed_origin :
    (Text → Option (Text × Text)) → List Text → (dev_mode : Bool) → Text → Bool
unfolding allowed_origins is_loopback_origin
is_allowed_origin parse_url origins dev_mode text =
    let origin = trim_right_byte b'/' text in
    any (λ o. o == origin) (allowed_origins origins)
    || (dev_mode && is_loopback_origin parse_url origin)
