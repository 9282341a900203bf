-- ===== src/Authorization/Policy/Sets.antt =====
-- What the tests of internal/authorization on scopes and roles say.
use gpu_rental_platform.Common.{
  ◌≡◌, ◌≢◌, ◌⊎◌, inl, inr, refl, ap, Bool, true, false, Row, eq_iff, eq_refl, ◌&&◌, ◌||◌,
}
use gpu_rental_platform.Tenancy.{SubjectType, Role, ScopeType}
use gpu_rental_platform.Authorization.{
  is_owner, is_project_admin, reads_tenant, reads_project, reads_tenant_bindings,
  reads_project_bindings, sets_quota, is_tenant, is_project, is_user, scope_eq,
}
use gpu_rental_platform.Authorization.Policy.{
  tenant_readers, project_readers, tenant_binding_readers, project_binding_readers, quota_setters,
}

pub and_true : (a b : Bool) → (a && b) ≡ true → (a ≡ true) × (b ≡ true)
and_true true b h = (refl, h)
and_true false b h = cc

pub or_true : (a b : Bool) → (a || b) ≡ true → (a ≡ true) ⊎ (b ≡ true)
or_true true b h = inl refl
or_true false b h = inr h

pub is_tenant_eq : (s : ScopeType) → is_tenant s ≡ true → s ≡ ScopeType.tenant
is_tenant_eq ScopeType.tenant h = refl
is_tenant_eq _ h = cc

pub is_project_eq : (s : ScopeType) → is_project s ≡ true → s ≡ ScopeType.project
is_project_eq ScopeType.project h = refl
is_project_eq _ h = cc

pub is_user_eq : (s : SubjectType) → is_user s ≡ true → s ≡ SubjectType.user
is_user_eq SubjectType.user h = refl
is_user_eq _ h = cc

pub is_owner_eq : (role : Role) → is_owner role ≡ true → role ≡ Role.tenant_owner
is_owner_eq Role.tenant_owner h = refl
is_owner_eq _ h = cc

pub is_project_admin_eq : (role : Role) → is_project_admin role ≡ true → role ≡ Role.project_admin
is_project_admin_eq Role.project_admin h = refl
is_project_admin_eq _ h = cc

pub is_tenant_no : (s : ScopeType) → s ≢ ScopeType.tenant → is_tenant s ≡ false
is_tenant_no ScopeType.tenant n = absurd (n refl)
is_tenant_no _ n = refl

pub is_tenant_ne : (s : ScopeType) → is_tenant s ≡ false → s ≢ ScopeType.tenant
is_tenant_ne s b e = let b' = rw e at b in cc

pub scope_eq_eq : (s t : ScopeType) → scope_eq s t ≡ true → s ≡ t
scope_eq_eq ScopeType.tenant ScopeType.tenant h = refl
scope_eq_eq ScopeType.project ScopeType.project h = refl
scope_eq_eq (ScopeType.other a) (ScopeType.other b) h = ap ScopeType.other ((eq_iff a b).0 h)
scope_eq_eq _ _ h = cc

pub scope_eq_refl : (s : ScopeType) → scope_eq s s ≡ true
scope_eq_refl ScopeType.tenant = refl
scope_eq_refl ScopeType.project = refl
scope_eq_refl (ScopeType.other a) = eq_refl a

pub reads_tenant-Row : (role : Role) → reads_tenant role ≡ true → Row role tenant_readers
unfolding reads_tenant
reads_tenant-Row Role.tenant_owner h = inl refl
reads_tenant-Row Role.billing_admin h = inr (inl refl)
reads_tenant-Row Role.auditor h = inr (inr (inl refl))
reads_tenant-Row Role.viewer h = inr (inr (inr (inl refl)))
reads_tenant-Row _ h = cc

pub reads_project-Row : (role : Role) → reads_project role ≡ true → Row role project_readers
unfolding reads_project
reads_project-Row Role.project_admin h = inl refl
reads_project-Row Role.operator h = inr (inl refl)
reads_project-Row Role.developer h = inr (inr (inl refl))
reads_project-Row Role.viewer h = inr (inr (inr (inl refl)))
reads_project-Row Role.billing_admin h = inr (inr (inr (inr (inl refl))))
reads_project-Row Role.auditor h = inr (inr (inr (inr (inr (inl refl)))))
reads_project-Row Role.service_account h = inr (inr (inr (inr (inr (inr (inl refl))))))
reads_project-Row _ h = cc

pub reads_tenant_bindings-Row :
    (role : Role) → reads_tenant_bindings role ≡ true → Row role tenant_binding_readers
unfolding reads_tenant_bindings
reads_tenant_bindings-Row Role.tenant_owner h = inl refl
reads_tenant_bindings-Row Role.auditor h = inr (inl refl)
reads_tenant_bindings-Row Role.viewer h = inr (inr (inl refl))
reads_tenant_bindings-Row _ h = cc

pub reads_project_bindings-Row :
    (role : Role) → reads_project_bindings role ≡ true → Row role project_binding_readers
unfolding reads_project_bindings
reads_project_bindings-Row Role.project_admin h = inl refl
reads_project_bindings-Row Role.operator h = inr (inl refl)
reads_project_bindings-Row Role.developer h = inr (inr (inl refl))
reads_project_bindings-Row Role.viewer h = inr (inr (inr (inl refl)))
reads_project_bindings-Row Role.auditor h = inr (inr (inr (inr (inl refl))))
reads_project_bindings-Row Role.service_account h = inr (inr (inr (inr (inr (inl refl)))))
reads_project_bindings-Row _ h = cc

pub sets_quota-Row : (role : Role) → sets_quota role ≡ true → Row role quota_setters
unfolding sets_quota
sets_quota-Row Role.project_admin h = inl refl
sets_quota-Row Role.billing_admin h = inr (inl refl)
sets_quota-Row _ h = cc
