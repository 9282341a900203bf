-- ===== src/Storage/Creation/Laws.antt =====
-- What the tables of tenants, projects and role bindings satisfy in every run.
use mathlib.Core.Path.{subst}
use gpu_rental_platform.Common.{
  ◌∙◌, ◌≡◌, refl, sym, ap, ℕ, String, Bool, true, ◌&&◌, ◌||◌, not, List, [], ◌∷◌, ◌++◌, str_eq,
  eq_iff, any, All, All-append, arith, Unique, Unique-append, ok, >>=-eq-ok, fail_if-ok,
  fail_if-eq-ok, fail_if, ok-injective, conflict, not_found,
}
use gpu_rental_platform.Authorization.{role_allowed_for_scope}
use gpu_rental_platform.Tenancy.{ScopeType, Tenant, Project, RoleBinding}
use gpu_rental_platform.Storage.Db.{Db}
use gpu_rental_platform.Storage.Mutation.Laws.{SameDomain}
use gpu_rental_platform.Storage.Creation.{
  same_grant, insert_tenant, insert_project, insert_binding, scope_exists,
}
use gpu_rental_platform.Storage.Creation.Rows.{fresh_key, any-append_left, All-weaken}

abbrev slug_of : Tenant → String
slug_of t = t.slug

abbrev namespace_of : Project → String
namespace_of p = p.namespace_name

abbrev pub IsOwned : Db → Project → Type 0
IsOwned db p = any (λ (t : Tenant). str_eq t.id p.tenant_id) db.tenants ≡ true

abbrev pub IsLegal : Db → RoleBinding → Type 0
IsLegal db b =
    (role_allowed_for_scope b.role b.scope_type b.subject_type ≡ true)
    × (scope_exists b.scope_type b.scope_id db ≡ ok true)

pub record WellFormed (db : Db) : Type 0 where
  pub slugs : Unique slug_of db.tenants
  pub namespaces : Unique namespace_of db.projects
  pub owned : All (IsOwned db) db.projects
  pub legal : All (IsLegal db) db.role_bindings

pub insert_tenant-WellFormed :
    (id name slug : String) (now : ℕ) (db after : Db)
    → WellFormed db
    → insert_tenant id name slug now db ≡ ok after
    → WellFormed after
unfolding insert_tenant scope_exists
insert_tenant-WellFormed id name slug now db after good h =
    let (_, c, h₁) =
      >>=-eq-ok
        (fail_if (any (λ (t : Tenant). str_eq t.id id || str_eq t.slug slug) db.tenants) conflict) _
        h in
    let fresh =
      fresh_key slug_of slug (λ t. str_eq t.id id || str_eq t.slug slug) db.tenants
        (λ t e. ground (arith, eq_iff t.slug slug))
        (fail_if-eq-ok (any (λ (t : Tenant). str_eq t.id id || str_eq t.slug slug) db.tenants) _
          c) in
    let row : Tenant = record {
      id = id;
      name = name;
      slug = slug;
      status = "active";
      generation = 1;
      created_at = now;
      updated_at = now;
    } in
    let added = record db { tenants = db.tenants ++ row ∷ [] } in
    rw (← (ok-injective h₁)) (record {
      slugs = Unique-append slug_of db.tenants row good.slugs fresh;
      namespaces = good.namespaces;
      owned =
          All-weaken (IsOwned db) (IsOwned added) db.projects
            (λ p. any-append_left (λ (t : Tenant). str_eq t.id p.tenant_id) db.tenants (row ∷ []))
            good.owned;
      legal =
          All-weaken (IsLegal db) (IsLegal added) db.role_bindings
            (λ b l. (
              l.0,
              ground (
                arith,
                any-append_left (λ (t : Tenant). str_eq t.id b.scope_id) db.tenants (row ∷ []),
              ),
            ))
            good.legal;
    })

pub insert_project-WellFormed :
    (p : Project) (db after : Db)
    → WellFormed db
    → insert_project p db ≡ ok after
    → WellFormed after
unfolding insert_project scope_exists
insert_project-WellFormed p db after good h =
    let taken : Project → Bool = λ x.
      str_eq x.id p.id
      || (str_eq x.tenant_id p.tenant_id && str_eq x.slug p.slug)
      || str_eq x.namespace_name p.namespace_name in
    let (_, c, h₁) =
      >>=-eq-ok (fail_if (not (any (λ (t : Tenant). str_eq t.id p.tenant_id) db.tenants)) not_found)
        _ h in
    let (_, c', h₂) = >>=-eq-ok (fail_if (any taken db.projects) conflict) _ h₁ in
    let fresh =
      fresh_key namespace_of p.namespace_name taken db.projects
        (λ x e. ground (arith, eq_iff x.namespace_name p.namespace_name))
        (fail_if-eq-ok (any taken db.projects) _ c') in
    let exists =
      fail_if-eq-ok (not (any (λ (t : Tenant). str_eq t.id p.tenant_id) db.tenants)) _ c in
    let added = record db { projects = db.projects ++ p ∷ [] } in
    rw (← (ok-injective h₂)) (record {
      slugs = good.slugs;
      namespaces = Unique-append namespace_of db.projects p good.namespaces fresh;
      owned = All-append (IsOwned added) db.projects (p ∷ []) good.owned (ground arith, tt);
      legal =
          All-weaken (IsLegal db) (IsLegal added) db.role_bindings
            (λ b l. (
              l.0,
              ground (
                arith,
                any-append_left (λ (x : Project). str_eq x.id b.scope_id) db.projects (p ∷ []),
              ),
            ))
            good.legal;
    })

scope_exists-same :
    (s : ScopeType) (id : String) (db after : Db)
    → after.tenants ≡ db.tenants
    → after.projects ≡ db.projects
    → scope_exists s id after ≡ scope_exists s id db
unfolding scope_exists
scope_exists-same ScopeType.tenant id db after t p = rw t refl
scope_exists-same ScopeType.project id db after t p = rw p refl
scope_exists-same (ScopeType.other _) id db after t p = refl

IsLegal-same :
    (db after : Db) (bs : List RoleBinding)
    → after.tenants ≡ db.tenants
    → after.projects ≡ db.projects
    → All (IsLegal db) bs
    → All (IsLegal after) bs
IsLegal-same db after bs t p =
    All-weaken (IsLegal db) (IsLegal after) bs
      (λ b l. (l.0, scope_exists-same b.scope_type b.scope_id db after t p ∙ l.1))

pub WellFormed-same :
    (db after : Db)
    → WellFormed db
    → after.tenants ≡ db.tenants
    → after.projects ≡ db.projects
    → after.role_bindings ≡ db.role_bindings
    → WellFormed after
WellFormed-same db after good t p b = record {
  slugs = rw t (good.slugs);
  namespaces = rw p (good.namespaces);
  owned = rw (t, p) (good.owned);
  legal =
      IsLegal-same db after after.role_bindings t p (subst (All (IsLegal db)) (sym b) good.legal);
}

pub insert_binding-WellFormed :
    (b : RoleBinding) (db after : Db)
    → WellFormed db
    → role_allowed_for_scope b.role b.scope_type b.subject_type ≡ true
    → insert_binding b db ≡ ok after
    → WellFormed after
unfolding insert_binding scope_exists
insert_binding-WellFormed b db after good allowed h =
    let taken : RoleBinding → Bool = λ x. str_eq x.id b.id || same_grant x b in
    let (exists, e, h₁) = >>=-eq-ok (scope_exists b.scope_type b.scope_id db) _ h in
    let (_, c, h₂) = >>=-eq-ok (fail_if (not exists) not_found) _ h₁ in
    let h₃ = fail_if-ok (any taken db.role_bindings) _ _ h₂ in
    let found = fail_if-eq-ok (not exists) _ c in
    let here : exists ≡ true = ground arith in
    let added = record db { role_bindings = db.role_bindings ++ b ∷ [] } in
    rw (← (ok-injective h₃)) (record {
      slugs = good.slugs;
      namespaces = good.namespaces;
      owned = good.owned;
      legal =
          All-append (IsLegal added) db.role_bindings (b ∷ [])
            (IsLegal-same db added db.role_bindings refl refl good.legal)
            (
              (
                allowed,
                scope_exists-same b.scope_type b.scope_id db added refl refl ∙ e ∙ ap ok here,
              ),
              tt,
            );
    })

pub WellFormed-SameDomain : (db after : Db) → WellFormed db → SameDomain db after → WellFormed after
WellFormed-SameDomain db after good same =
    WellFormed-same db after good same.tenants same.projects same.role_bindings
