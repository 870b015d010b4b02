-- ===== src/Forms/Origin.antt =====
-- trackr_app/auth.py: `normalized_origin`, `valid_form_origin`, `check_form` and `safe_destination`.
-- urllib's `urlsplit` and the signed tokens are parameters.
use Prim.Native.String.{count}
use summer_intern.Prelude.{
  ℕ, Bool, false, not, ◌&&◌, ◌||◌, Option, none, some, List, [], ◌∷◌, String, ◌==◌, nat_eq,
  string_eq, ltb, is_some, if◌then◌else◌, contains,
}

-- What `urlsplit` gives, or none where it or the port raises `ValueError`; the port 0 counts as none.
pub record OriginParts : Type 0 where
  pub scheme : String
  pub netloc : String
  pub hostname : Option String
  pub username : Option String
  pub password : Option String
  pub port : Option ℕ
  pub path : String
  pub query : String
  pub fragment : String

abbrev pub Splitter : Type 0
Splitter = String → Option OriginParts

-- The scheme, the host in lower case and the port.
pub record Origin : Type 0 where
  pub scheme : String
  pub host : String
  pub port : ℕ

abbrev pub default_port : OriginParts → ℕ
default_port p = elim p.port [ some n ↦ n | none ↦ if p.scheme == "https" then 443 else 80 ]

module _ (split : Splitter) (lower : String → String) where
  abbrev pub origin_of : OriginParts → Option String → Option Origin
  origin_of p none = none
  origin_of p (some host) =
      if not (p.scheme == "http" || p.scheme == "https")
        || host == ""
        || is_some p.username
        || is_some p.password
        || not (p.path == "" || p.path == "/")
        || not (p.query == "")
        || not (p.fragment == "")
      then none
      else some (record { scheme = p.scheme; host = lower host; port = default_port p })

  abbrev pub origin_in : Option OriginParts → Option Origin
  origin_in none = none
  origin_in (some p) = origin_of p p.hostname

  unfoldable pub normalized_origin : String → Option Origin
  normalized_origin value = origin_in (split value)

-- The origins that are allowed by the settings: the application's own address, the listed ones, the
-- deployment's host where it is allowed, and the served address in development.
pub record Allowed : Type 0 where
  pub canonical : String
  pub explicit : List String
  pub deployment : Option String
  pub served : Option String

abbrev pub origin_beq : Origin → Origin → Bool
origin_beq a b = a.scheme == b.scheme && a.host == b.host && a.port == b.port

abbrev pub same_origin : Origin → Option Origin → Bool
same_origin o none = false
same_origin o (some a) = origin_beq o a

module _ (split : Splitter) (lower : String → String) (allowed : Allowed) where
  abbrev pub normalized : String → Option Origin
  normalized value = normalized_origin split lower value

  unfoldable pub any_origin : Origin → List String → Bool
  unfolding normalized_origin
  any_origin o [] = false
  any_origin o (v ∷ vs) = same_origin o (normalized v) || any_origin o vs

  abbrev pub optional_origin : Origin → Option String → Bool
  optional_origin o none = false
  optional_origin o (some v) = same_origin o (normalized v)

  abbrev pub is_allowed_origin : Option Origin → Bool
  is_allowed_origin none = false
  is_allowed_origin (some o) =
      same_origin o (normalized allowed.canonical)
      || any_origin o allowed.explicit
      || optional_origin o allowed.deployment
      || optional_origin o allowed.served

  unfoldable pub valid_form_origin : String → Bool
  unfolding any_origin normalized_origin
  valid_form_origin origin = is_allowed_origin (normalized origin)

  -- A signed token of the form: what it carries, if the signature holds, and whether it is older
  -- than an hour. The cookie may be older.
  abbrev pub same_browser : Option String → Option (String × Bool) → Bool
  same_browser (some browser) (some (submitted, is_old)) = not is_old && browser == submitted
  same_browser _ _ = false

  -- Whether `check_form` returns; a request without an origin is judged by its tokens alone.
  unfoldable pub check_form : Option String → Option String → Option (String × Bool) → Bool
  unfolding valid_form_origin
  check_form none cookie token = same_browser cookie token
  check_form (some origin) cookie token = valid_form_origin origin && same_browser cookie token

abbrev pub return_paths : List String
return_paths = "/dashboard" ∷ "/preferences" ∷ "/admin" ∷ "/notion/setup" ∷ "/notion/connect" ∷ []

abbrev pub is_local : Option OriginParts → Bool
is_local none = false
is_local (some p) = p.scheme == "" && p.netloc == "" && contains return_paths p.path

-- `has_control` is whether a character below 32 or a backslash is in the text.
unfoldable pub safe_destination : Splitter → (String → Bool) → String → String
safe_destination split has_control value =
    if ltb 2048 (count value) || has_control value
    then "/dashboard"
    else if is_local (split value)
    then value
    else "/dashboard"

-- `login_redirect`: the cookie's destination if its signature holds, and only instead of the
-- dashboard.
unfoldable pub login_redirect : Splitter → (String → Bool) → Option String → String → String
unfolding safe_destination
login_redirect split has_control none default = default
login_redirect split has_control (some value) default =
    if default == "/dashboard" then safe_destination split has_control value else default
