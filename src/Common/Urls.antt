-- ===== src/Common/Urls.antt =====
-- trackr_common.py, `canonical_offer_url`. Python's text methods and urllib are parameters; `urlsplit`
-- gives none where it, or reading the port, raises a ValueError.
use summer_intern.Prelude.{
  String, Bool, false, not, ◌&&◌, ◌||◌, Option, none, some, List, [], ◌∷◌, ◌==◌, string_eq,
  if◌then◌else◌, select, contains,
}
use text.Mathlib.Text.{starts_with}

pub record UrlParts : Type 0 where
  pub scheme : String
  pub netloc : String
  pub path : String
  pub query : String
  pub fragment : String
  pub hostname : Option String
  pub username : Option String
  pub password : Option String

pub record Urllib : Type 0 where
  pub strip : String → String
  pub lower : String → String
  pub rstrip_slash : String → String
  pub urlsplit : String → Option UrlParts
  pub parse_qsl : String → List (String × String)
  pub urlencode : List (String × String) → String
  pub urlunsplit : String → String → String → String → String → String

abbrev pub tracking_query_parameters : List String
tracking_query_parameters = "source" ∷ "iis" ∷ "stype" ∷ "gh_src" ∷ []

-- A Python truth test of an optional text.
abbrev pub is_filled : Option String → Bool
is_filled none = false
is_filled (some s) = not (s == "")

module _ (lib : Urllib) where
  unfoldable pub is_kept_parameter : String × String → Bool
  is_kept_parameter (name, value) =
      not (starts_with (lib.lower name) "utm_")
      && not (contains tracking_query_parameters (lib.lower name))

  unfoldable pub canonical_parts : Option UrlParts → String
  unfolding is_kept_parameter
  canonical_parts none = ""
  canonical_parts (some parts) =
      let scheme = lib.lower parts.scheme in
      let path = lib.rstrip_slash parts.path in
      if not (scheme == "https" || scheme == "http")
        || not (is_filled parts.hostname)
        || is_filled parts.username
        || is_filled parts.password
      then ""
      else lib.urlunsplit scheme (lib.lower parts.netloc) (if path == "" then "/" else path)
          (lib.urlencode (select is_kept_parameter (lib.parse_qsl parts.query))) parts.fragment

  unfoldable pub canonical_offer_url : String → String
  unfolding canonical_parts
  canonical_offer_url value =
      if lib.strip value == "" then "" else canonical_parts (lib.urlsplit (lib.strip value))
