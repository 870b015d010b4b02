-- ===== src/Samples/Site.antt =====
-- Runs of the handlers of trackr_app/main.py.
use summer_intern.Prelude.{
  ℕ, ◌≡◌, ◌≢◌, ◌≤◌, refl, true, false, not, none, some, List, [], ◌∷◌, nat_eq, ◌==◌, find,
  string_eq, String, arith, All, Option, Bool, ◌&&◌,
}
use summer_intern.Model.{Db, User, MagicLink}
use summer_intern.Passwords.{Secrets, user_key}
use summer_intern.Web.Admin.{toggle_user}
use summer_intern.Web.Deactivation.{IsSilent, IsLocked, toggle_user_stops}
use summer_intern.Web.SignIn.{invalid, consume_link, consume_link_page}
use summer_intern.Web.Links.{consume_link_once}
use summer_intern.Samples.{match_db, ada, test_crypto}

abbrev boss : User
boss = record ada { id = 2; email = "boss@example.org"; role = "admin" }

abbrev site_db : Db
site_db = record match_db { users = ada ∷ boss ∷ [] }

toggle_user_stops_example :
    (find user_key 1 (toggle_user test_crypto "2026" true 50 0 1 boss site_db).0.users
      ≡ some (record ada { is_active = false }))
    × IsSilent
        (record ada { is_active = false })
        (toggle_user test_crypto "2026" true 50 0 1 boss site_db).0
    × IsLocked test_crypto
        (record ada { is_active = false })
        (toggle_user test_crypto "2026" true 50 0 1 boss site_db).0
unfolding find
toggle_user_stops_example =
    toggle_user_stops test_crypto "2026" true 50 0 boss ada site_db refl refl refl

abbrev ada_link : MagicLink
ada_link = record {
  id = 9;
  user_id = 1;
  token_hash = "#raw";
  expires_at = 1000;
  used_at = none;
  created_at = 0;
}

abbrev link_db : Db
link_db = record match_db { magic_links = ada_link ∷ [] }

abbrev cookie_secrets : Secrets
cookie_secrets = record {
  hasher = record { hash = λ s. s; verify = λ a b. a == b };
  dummy_hash = "dummy";
  raw = "cookie";
  csrf = "csrf";
}

abbrev signed_db : Db
signed_db = (consume_link test_crypto cookie_secrets 50 (λ db. db) "raw" link_db).0

consume_link_once_example :
    (consume_link test_crypto cookie_secrets 60 (λ db. db) "raw" signed_db ≡ (signed_db, invalid))
    × (consume_link_page test_crypto 60 "raw" signed_db ≡ invalid)
    × ((consume_link test_crypto cookie_secrets 60 (λ _. signed_db) "raw" link_db).1 ≡ invalid)
unfolding summer_intern.Prelude.first_where consume_link find
consume_link_once_example =
    consume_link_once test_crypto cookie_secrets cookie_secrets 50 60 (λ db. db) (λ db. db) "raw"
      link_db link_db ada_link ada_link refl ((λ same. refl), tt) refl refl refl (omega arith)
