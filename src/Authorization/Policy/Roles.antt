-- ===== src/Authorization/Policy/Roles.antt =====
-- `roleAllows` accepts the roles of the rules.
use gpu_rental_platform.Common.{
  ◌≡◌, ◌⊎◌, inl, inr, refl, String, true, false, All-Row, if◌then◌else◌, str_eq, eq_iff, Bool-cases,
  ◌&&◌, ◌||◌,
}
use gpu_rental_platform.Tenancy.{Role, ScopeType, RoleBinding}
use gpu_rental_platform.Authorization.{
  Request, is_owner, is_project_admin, reads_tenant, reads_project, reads_tenant_bindings,
  reads_project_bindings, sets_quota, is_tenant, is_project, role_allows,
}
use gpu_rental_platform.Authorization.Policy.{
  tenant_readers, project_readers, tenant_binding_readers, project_binding_readers, quota_setters,
  Permits, tenant_read, project_create, project_read, tenant_binding_create, project_binding_create,
  tenant_binding_read, project_binding_read, quota_set, IsAcross, MayAct,
}
use gpu_rental_platform.Authorization.Policy.Sets.{
  and_true, or_true, is_tenant_eq, is_project_eq, is_owner_eq, is_project_admin_eq, is_tenant_no,
  is_tenant_ne, reads_tenant-Row, reads_project-Row, reads_tenant_bindings-Row,
  reads_project_bindings-Row, sets_quota-Row,
}

not_across :
    (r : Request) (b : RoleBinding)
    → (IsAcross r b → ⊥)
    → (is_project r.scope_type && is_tenant b.scope_type) ≡ false
not_across r b apart = elim (Bool-cases (is_project r.scope_type && is_tenant b.scope_type)) [
  | inl t ↦
      let (p, q) = and_true (is_project r.scope_type) _ t in
      absurd (apart (is_project_eq r.scope_type p, is_tenant_eq b.scope_type q))
  | inr f ↦ f
]

-- The switch over the actions
role_allows-Permits :
    (action : String) (requested bound : ScopeType) (role : Role)
    → (is_project requested && is_tenant bound) ≡ false
    → role_allows action requested bound role ≡ true
    → Permits action bound role
unfolding role_allows
role_allows-Permits action requested bound role apart h =
    elim (Bool-cases (str_eq action "tenant.read")) [
      | inl t ↦
          tenant_read ((eq_iff action "tenant.read").0 t)
            (reads_tenant-Row role (rw (apart, t) at h))
      | inr f₁ ↦ elim (Bool-cases (str_eq action "project.create")) [
        | inl t ↦
            project_create ((eq_iff action "project.create").0 t)
              (is_owner_eq role (rw (apart, f₁, t) at h))
        | inr f₂ ↦ elim (Bool-cases (str_eq action "project.read" || str_eq action "quota.read")) [
          | inl t ↦
              let either : (action ≡ "project.read") ⊎ (action ≡ "quota.read") =
                elim (or_true (str_eq action "project.read") _ t) [
                  | inl e ↦ inl ((eq_iff action "project.read").0 e)
                  | inr e ↦ inr ((eq_iff action "quota.read").0 e)
                ] in
              project_read either (reads_project-Row role (rw (apart, f₁, f₂, t) at h))
          | inr f₃ ↦ on_bindings (rw (apart, f₁, f₂, f₃) at h)
        ]
      ]
    ]
  where
    on_bindings :
        (if str_eq action "role_binding.create"
            then (if is_tenant bound then is_owner role else is_project_admin role)
            else if str_eq action "role_binding.read"
            then (if is_tenant bound
                then reads_tenant_bindings role
                else reads_project_bindings role)
            else if str_eq action "quota.set"
            then sets_quota role
            else false)
          ≡ true
        → Permits action bound role
    on_bindings k = elim (Bool-cases (str_eq action "role_binding.create")) [
      | inl t ↦
          let e = (eq_iff action "role_binding.create").0 t in
          elim (Bool-cases (is_tenant bound)) [
            | inl b ↦
                tenant_binding_create e (is_tenant_eq bound b) (is_owner_eq role (rw (t, b) at k))
            | inr b ↦
                project_binding_create e (is_tenant_ne bound b)
                  (is_project_admin_eq role (rw (t, b) at k))
          ]
      | inr f₁ ↦ elim (Bool-cases (str_eq action "role_binding.read")) [
        | inl t ↦
            let e = (eq_iff action "role_binding.read").0 t in
            elim (Bool-cases (is_tenant bound)) [
              | inl b ↦
                  tenant_binding_read e (is_tenant_eq bound b)
                    (reads_tenant_bindings-Row role (rw (f₁, t, b) at k))
              | inr b ↦
                  project_binding_read e (is_tenant_ne bound b)
                    (reads_project_bindings-Row role (rw (f₁, t, b) at k))
            ]
        | inr f₂ ↦ elim (Bool-cases (str_eq action "quota.set")) [
          | inl t ↦
              quota_set ((eq_iff action "quota.set").0 t)
                (sets_quota-Row role (rw (f₁, f₂, t) at k))
          | inr f₃ ↦ absurd (let k' = rw (f₁, f₂, f₃) at k in cc)
        ]
      ]
    ]

Permits-role_allows :
    (action : String) (requested bound : ScopeType) (role : Role)
    → (is_project requested && is_tenant bound) ≡ false
    → Permits action bound role
    → role_allows action requested bound role ≡ true
unfolding role_allows reads_tenant reads_project reads_tenant_bindings reads_project_bindings
    sets_quota
Permits-role_allows action requested bound role apart (tenant_read e m) =
    rw (e, apart)
      (All-Row (λ x. reads_tenant x ≡ true) tenant_readers (refl, (refl, (refl, (refl, tt)))) m)
Permits-role_allows action requested bound role apart (project_create e o) = rw (e, apart, o) refl
Permits-role_allows action requested bound role apart (project_read (inl e) m) =
    rw (e, apart)
      (All-Row (λ x. reads_project x ≡ true) project_readers
        (refl, (refl, (refl, (refl, (refl, (refl, (refl, tt))))))) m)
Permits-role_allows action requested bound role apart (project_read (inr e) m) =
    rw (e, apart)
      (All-Row (λ x. reads_project x ≡ true) project_readers
        (refl, (refl, (refl, (refl, (refl, (refl, (refl, tt))))))) m)
Permits-role_allows action requested bound role apart (tenant_binding_create e t o) =
    let b : is_tenant bound ≡ true = rw t refl in rw (e, apart, b, o) refl
Permits-role_allows action requested bound role apart (project_binding_create e t o) =
    let b : is_tenant bound ≡ false = is_tenant_no bound t in rw (e, apart, b, o) refl
Permits-role_allows action requested bound role apart (tenant_binding_read e t m) =
    let b : is_tenant bound ≡ true = rw t refl in
    rw (e, apart, b)
      (All-Row (λ x. reads_tenant_bindings x ≡ true) tenant_binding_readers
        (refl, (refl, (refl, tt))) m)
Permits-role_allows action requested bound role apart (project_binding_read e t m) =
    let b : is_tenant bound ≡ false = is_tenant_no bound t in
    rw (e, apart, b)
      (All-Row (λ x. reads_project_bindings x ≡ true) project_binding_readers
        (refl, (refl, (refl, (refl, (refl, (refl, tt)))))) m)
Permits-role_allows action requested bound role apart (quota_set e m) =
    rw (e, apart) (All-Row (λ x. sets_quota x ≡ true) quota_setters (refl, (refl, tt)) m)

across :
    (r : Request) (b : RoleBinding)
    → IsAcross r b
    → (is_project r.scope_type && is_tenant b.scope_type) ≡ true
across r b (p, t) = rw (p, t) refl

pub role_allows-MayAct :
    (r : Request) (b : RoleBinding)
    → role_allows r.action r.scope_type b.scope_type b.role ≡ true
    → MayAct r b
unfolding role_allows
role_allows-MayAct r b h = elim (Bool-cases (is_project r.scope_type && is_tenant b.scope_type)) [
  | inl t ↦
      let (p, q) = and_true (is_project r.scope_type) _ t in
      inl (
        (is_project_eq r.scope_type p, is_tenant_eq b.scope_type q),
        is_owner_eq b.role (rw t at h),
      )
  | inr f ↦ inr (
    (λ a. let t = across r b a in cc),
    role_allows-Permits r.action r.scope_type b.scope_type b.role f h,
  )
]

pub MayAct-role_allows :
    (r : Request) (b : RoleBinding)
    → MayAct r b
    → role_allows r.action r.scope_type b.scope_type b.role ≡ true
unfolding role_allows
MayAct-role_allows r b (inl (a, owner)) = rw (across r b a, owner) refl
MayAct-role_allows r b (inr (apart, permits)) =
    Permits-role_allows r.action r.scope_type b.scope_type b.role (not_across r b apart) permits
