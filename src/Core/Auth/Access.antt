-- ===== src/Core/Auth/Access.antt =====
-- What core/auth/auth.go grants.
use magento_go.Prelude.{
  ℕ, ◌≡◌, refl, String, Bool, true, false, Option, none, some, List, [], ◌∷◌, ◌==◌, ◌&&◌, not,
  string_eq, nat_eq, any, select, filter_map, arith, All, All-imp, Option-cases, Bool-cases, inl,
  inr,
}
use magento_go.Prelude.Dict.{==_refl}
use magento_go.Core.Auth.{
  OauthToken, AuthorizationRole, AuthorizationRule, AuthDb, Context, find_active_token, allows,
  is_allowed, find_user_role, find_group_role, find_allowed_resources, set_group, load_group,
  load_user, load_acl, token_auth,
}

abbrev rows_of {ℓ} : {A : Type ℓ} → Option (List A) → List A
rows_of none = []
rows_of (some rows) = rows

abbrev names : String → Option String → Bool
names resource none = false
names resource (some n) = n == resource

-- Some rule of this role, with the permission `allow`, names the resource.
abbrev pub has_rule : ℕ → String → List AuthorizationRule → Bool
has_rule role_id resource rules =
    any
      (λ (r : AuthorizationRule).
        r.role_id == role_id && (names "allow" r.permission && names resource r.resource_id))
      rules

abbrev pub allowed : AuthDb → Option ℕ → String → Bool
allowed db none resource = false
allowed db (some role_id) resource = has_rule role_id resource (rows_of db.rules)

-- Every resource of a context is one that the rules allow to the role of the context.
abbrev pub IsGranted : AuthDb → Option ℕ → Option (List String) → Type 0
IsGranted db role none = Unit
IsGranted db role (some resources) = All (λ r. allowed db role r ≡ true) resources

names-allows : (o : Option String) → names "allow" o ≡ allows o
names-allows none = refl
names-allows (some permission) = refl

granted-rule :
    (role_id : ℕ) (rule : AuthorizationRule) (rules : List AuthorizationRule) (b : Bool)
    (o : Option String)
    → is_allowed role_id rule ≡ b
    → rule.resource_id ≡ o
    → All
        (λ r. has_rule role_id r rules ≡ true)
        (filter_map (λ (r : AuthorizationRule). r.resource_id) (select (is_allowed role_id) rules))
    → All
        (λ r. has_rule role_id r (rule ∷ rules) ≡ true)
        (filter_map
          (λ (r : AuthorizationRule). r.resource_id)
          (select (is_allowed role_id) (rule ∷ rules)))
granted-rule role_id rule rules false o h k rest =
    rw h (All-imp _ _ (λ r t. ground (arith, t)) _ rest)
granted-rule role_id rule rules true none h k rest =
    rw (h, k) (All-imp _ _ (λ r t. ground (arith, t)) _ rest)
granted-rule role_id rule rules true (some n) h k rest =
    rw (h, k)
      (
        ground (arith, ==_refl n, names-allows rule.permission),
        All-imp _ _ (λ r t. ground (arith, t)) _ rest,
      )

granted-rules :
    (role_id : ℕ) (rules : List AuthorizationRule)
    → All
        (λ r. has_rule role_id r rules ≡ true)
        (filter_map (λ (r : AuthorizationRule). r.resource_id) (select (is_allowed role_id) rules))
granted-rules role_id [] = tt
granted-rules role_id (rule ∷ rules) =
    granted-rule role_id rule rules _ _ refl refl (granted-rules role_id rules)

module _ (db : AuthDb) where
  abbrev Good : Context → Type 0
  Good c = IsGranted db c.role_id c.acl_resources

  set_group-IsGranted :
      (group : AuthorizationRole) (c : Context)
      → c.acl_resources ≡ none
      → Good (set_group db group c)
  unfolding set_group find_allowed_resources
  set_group-IsGranted group c h = elim (Option-cases db.rules) [
    | inl n ↦ rw (n, h) tt
    | inr (rules, s) ↦ rw s (granted-rules group.role_id rules)
  ]

  unset : (c : Context) → c.acl_resources ≡ none → Good c
  unset c h = rw h tt

  load_group-IsGranted : (id : ℕ) (c : Context) → c.acl_resources ≡ none → Good (load_group db id c)
  unfolding load_group
  load_group-IsGranted id c h = elim (Option-cases (find_group_role db id)) [
    | inl n ↦ rw (n, load_group) (unset c h)
    | inr (group, s) ↦ rw (s, load_group) (set_group-IsGranted group c h)
  ]

  load_user-IsGranted : (id : ℕ) (c : Context) → c.acl_resources ≡ none → Good (load_user db id c)
  unfolding load_user
  load_user-IsGranted id c h = elim (Option-cases (find_user_role db id)) [
    | inl n ↦ rw (n, load_user) (unset c h)
    | inr (role, s) ↦ rw (s, load_user) (load_group-IsGranted role.parent_id c h)
  ]

  load_acl-IsGranted :
      (t : OauthToken) (c : Context) → c.acl_resources ≡ none → Good (load_acl db t c)
  unfolding load_acl
  load_acl-IsGranted t c h = elim (Option-cases t.admin_id) [
    | inl n ↦ rw n (unset c h)
    | inr (id, s) ↦ rw s (load_user-IsGranted id c h)
  ]

  -- Whatever the token, a request that starts without resources ends the check with resources only if
  -- it has a role, and then each of them is one that a rule of the database allows to this role.
  pub token_auth-IsGranted :
      (static_key token : String) (c : Context)
      → c.acl_resources ≡ none
      → let c' = (token_auth static_key db token c).0 in IsGranted db c'.role_id c'.acl_resources
  unfolding token_auth
  token_auth-IsGranted static_key token c h =
      elim (Bool-cases (not (static_key == "") && token == static_key)) [
        | inl b ↦ rw b (unset c h)
        | inr b ↦ rw b (elim (Option-cases (find_active_token db token)) [
          | inl n ↦ rw n (unset c h)
          | inr (t, s) ↦ rw s (load_acl-IsGranted t _ h)
        ])
      ]
