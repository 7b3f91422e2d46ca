-- ===== src/Core/Auth.antt =====
-- core/auth/auth.go with model/repository/auth/auth_repository.go: who is let in, and what a token may
-- do. A table is its rows in the order of the primary key, or `none` where it cannot be read; `same` is the
-- database's comparison of tokens. The middlewares of echo, which call these validators, are not modelled.
pub mod Access
mod Tests
use magento_go.Prelude.{
  ℕ, String, Bool, true, false, Option, none, some, List, [], ◌∷◌, ◌==◌, ◌&&◌, not, string_eq,
  nat_eq, any, select, filter_map, map, if◌then◌else◌,
}

pub record OauthToken : Type 0 where
  pub token : String
  pub kind : String
  pub revoked : ℕ
  pub admin_id : Option ℕ

pub record AuthorizationRole : Type 0 where
  pub role_id : ℕ
  pub parent_id : ℕ
  pub role_type : String
  pub user_id : ℕ
  pub role_name : String

pub record AuthorizationRule : Type 0 where
  pub role_id : ℕ
  pub resource_id : Option String
  pub permission : Option String

pub record AuthDb : Type 0 where
  pub same : String → String → Bool
  pub tokens : Option (List OauthToken)
  pub roles : Option (List AuthorizationRole)
  pub rules : Option (List AuthorizationRule)

-- The keys that the validators set in the request's context.
pub record Context : Type 0 where
  pub auth_type : Option String
  pub oauth_token : Option OauthToken
  pub role_id : Option ℕ
  pub role_name : Option String
  pub acl_resources : Option (List String)

abbrev pub head {ℓ} : {A : Type ℓ} → List A → Option A
head [] = none
head (x ∷ xs) = some x

-- `Where(…).First(&row)`: an error if there is no row.
abbrev pub first_row {ℓ} : {A : Type ℓ} → (A → Bool) → Option (List A) → Option A
first_row p none = none
first_row p (some rows) = head (select p rows)

abbrev pub is_active : AuthDb → String → OauthToken → Bool
is_active db token t = db.same t.token token && (t.kind == "access" && t.revoked == 0)

unfoldable pub find_active_token : AuthDb → String → Option OauthToken
find_active_token db token = first_row (is_active db token) db.tokens

unfoldable pub find_user_role : AuthDb → ℕ → Option AuthorizationRole
find_user_role db admin_id =
    first_row (λ (r : AuthorizationRole). r.user_id == admin_id && r.role_type == "U") db.roles

unfoldable pub find_group_role : AuthDb → ℕ → Option AuthorizationRole
find_group_role db role_id =
    first_row (λ (r : AuthorizationRole). r.role_id == role_id && r.role_type == "G") db.roles

abbrev pub allows : Option String → Bool
allows none = false
allows (some permission) = permission == "allow"

abbrev pub is_allowed : ℕ → AuthorizationRule → Bool
is_allowed role_id r = r.role_id == role_id && allows r.permission

-- The rules of the role that have a resource.
unfoldable pub find_allowed_resources : AuthDb → ℕ → Option (List String)
find_allowed_resources db role_id = elim db.rules [
  | none ↦ none
  | some rules ↦
      some
        (filter_map (λ (r : AuthorizationRule). r.resource_id) (select (is_allowed role_id) rules))
]

-- What follows on the group role.
unfoldable pub set_group : AuthDb → AuthorizationRole → Context → Context
set_group db group c =
    let c' = record c { role_id = some group.role_id; role_name = some group.role_name } in
    elim (find_allowed_resources db group.role_id) [
      | none ↦ c'
      | some resources ↦ record c' { acl_resources = some resources }
    ]

unfoldable pub load_group : AuthDb → ℕ → Context → Context
load_group db parent_id c = elim (find_group_role db parent_id) [
  | none ↦ c
  | some group ↦ set_group db group c
]

unfoldable pub load_user : AuthDb → ℕ → Context → Context
load_user db admin_id c = elim (find_user_role db admin_id) [
  | none ↦ c
  | some user_role ↦ load_group db user_role.parent_id c
]

-- loadACL: each missing step ends it.
unfoldable pub load_acl : AuthDb → OauthToken → Context → Context
load_acl db token c = elim token.admin_id [ none ↦ c | some admin_id ↦ load_user db admin_id c ]

-- The validator of tokenAuth, with `staticKey`.
unfoldable pub token_auth : String → AuthDb → String → Context → Context × Bool
token_auth static_key db token c =
    if not (static_key == "") && token == static_key
    then (record c { auth_type = some "static" }, true)
    else elim (find_active_token db token) [
      | none ↦ (c, false)
      | some t ↦ (load_acl db t (record c { auth_type = some "token"; oauth_token = some t }), true)
    ]

-- The validator of keyAuth, with the environment's API_KEY.
unfoldable pub key_auth : String → String → Bool
key_auth api_key key = key == api_key

-- The validator of basicAuth, with API_USER and API_PASS.
unfoldable pub basic_auth : String → String → String → String → Bool
basic_auth api_user api_pass username password = username == api_user && password == api_pass

-- buildSkipper: no check for the paths of the configuration.
unfoldable pub skips : List String → String → Bool
skips skip_paths path = any (λ skip. path == skip) skip_paths

pub data AuthKind : Type 0 where
  key_kind token_kind basic_kind : AuthKind

-- The switch of Middleware on AUTH_TYPE.
unfoldable pub auth_kind : String → AuthKind
auth_kind auth_type =
    if auth_type == "key" then key_kind else if auth_type == "token" then token_kind else basic_kind
