-- ===== src/Access/Roles.antt =====
-- effective_roles, which /role me shows, against allows, which the commands and the tools ask.
use cywl_oopz.Prelude.{
  ◌≡◌, refl, inl, inr, Bool, true, ◌||◌, List, [], ◌∷◌, some, arith, any, ok, Result-cases,
}
use cywl_oopz.Access.Models.{
  AccessRole, owner, Permission, RoleBinding, AccessResource, AccessPrincipal, role_beq,
  role_beq_iff,
}
use cywl_oopz.Access.Policy.{role_allows}
use cywl_oopz.Access.Service.{
  AuthorizationService, Listing, grants, add_role, matching_roles, allows, effective_roles,
}

abbrev pub any_allows : Permission → List AccessRole → Bool
any_allows permission roles = any (λ r. role_allows r permission) roles

any_allows_of_mem :
    (permission : Permission) (role : AccessRole) (roles : List AccessRole)
    → any (role_beq role) roles ≡ true
    → role_allows role permission ≡ true
    → any_allows permission roles ≡ true
any_allows_of_mem permission role [] m h = m
any_allows_of_mem permission role (r ∷ roles) m h =
    ground (arith, role_beq_iff role r, any_allows_of_mem permission role roles)

any_allows-add_role :
    (permission : Permission) (role : AccessRole) (roles : List AccessRole)
    → any_allows permission (add_role role roles)
      ≡ (role_allows role permission || any_allows permission roles)
any_allows-add_role permission role roles = ground (arith, any_allows_of_mem permission role roles)

any_allows-matching_roles :
    (permission : Permission) (resource : AccessResource) (bindings : List RoleBinding)
    → any_allows permission (matching_roles resource bindings)
      ≡ any (grants permission resource) bindings
any_allows-matching_roles permission resource [] = refl
any_allows-matching_roles permission resource (b ∷ bindings) = ground (
  arith,
  any_allows-matching_roles permission resource bindings,
  any_allows-add_role permission b.role (matching_roles resource bindings),
)

owner_allows : (permission : Permission) → role_allows owner permission ≡ true
unfolding role_allows
owner_allows permission = ground arith

module _ (service : AuthorizationService) (list_bindings : Listing) (principal : AccessPrincipal)
    (permission : Permission) (resource : AccessResource) where
  -- If the bindings load, a permission is allowed exactly when one of the effective roles has it.
  allows-eq-effective_roles :
      (roles : List AccessRole)
      → effective_roles service list_bindings principal resource ≡ ok roles
      → allows service list_bindings principal permission resource
        ≡ ok (any_allows permission roles)
  unfolding effective_roles allows
  allows-eq-effective_roles roles h =
      elim (Result-cases (list_bindings (some principal.person_id))) [
        | inl (bindings, loaded) ↦ ground (
          arith,
          any_allows-matching_roles permission resource bindings,
          any_allows-add_role permission owner (matching_roles resource bindings),
          owner_allows permission,
        )
        | inr (e, failed) ↦ ground arith
      ]
