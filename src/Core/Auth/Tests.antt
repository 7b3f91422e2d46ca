-- ===== src/Core/Auth/Tests.antt =====
-- The authentication at a database with one administrator.
use magento_go.Prelude.{◌≡◌, refl, String, none, some, [], ◌∷◌, ◌==◌, string_eq}
use magento_go.Core.Auth.{
  AuthDb, Context, find_active_token, find_user_role, find_group_role, find_allowed_resources,
  set_group, load_group, load_user, load_acl, token_auth,
}
use magento_go.Core.Auth.Access.{IsGranted, token_auth-IsGranted}

abbrev blank : Context
blank = record {
  auth_type = none;
  oauth_token = none;
  role_id = none;
  role_name = none;
  acl_resources = none;
}

abbrev secret : String
secret = "secret"

abbrev db : AuthDb
db = record {
  same = λ a b. a == b;
  tokens = some (record { token = secret; kind = "access"; revoked = 0; admin_id = some 1 } ∷ []);
  roles = some (
      record { role_id = 3; parent_id = 2; role_type = "U"; user_id = 1; role_name = "ann" }
      ∷ record { role_id = 2; parent_id = 0; role_type = "G"; user_id = 0; role_name = "staff" }
      ∷ []);
  rules = some (
      record { role_id = 2; resource_id = some "sales"; permission = some "allow" }
      ∷ record { role_id = 2; resource_id = some "admin"; permission = some "deny" }
      ∷ record { role_id = 5; resource_id = some "admin"; permission = some "allow" }
      ∷ []);
}

ann_may_sell : (token_auth "" db secret blank).0.acl_resources ≡ some ("sales" ∷ [])
unfolding token_auth find_active_token load_acl load_user find_user_role load_group find_group_role
    set_group find_allowed_resources
ann_may_sell = refl

token_auth-IsGranted_example :
    let c' = (token_auth "static" db secret blank).0 in IsGranted db c'.role_id c'.acl_resources
token_auth-IsGranted_example = token_auth-IsGranted db "static" secret blank refl
