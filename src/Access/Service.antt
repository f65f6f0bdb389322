-- ===== src/Access/Service.antt =====
-- features/access/service.py, over any listing of the bindings.
use cywl_oopz.Prelude.{
  Bool, true, not, ◌&&◌, List, [], ◌∷◌, Option, some, map, if◌then◌else◌, ltb, any, keep, length,
  ◌==◌, nat_eq, list_eq, Result, ok, ◌>>=◌, ◌>>◌, raise_if,
}
use cywl_oopz.Prelude.Text.{Text, strip}
use cywl_oopz.Access.Models.{
  AccessRole, owner, role_beq, Permission, RoleBinding, AccessResource, AccessPrincipal,
  AccessError, bootstrap_owner_id_too_long, permission_denied, is_empty, max_identifier,
}
use cywl_oopz.Access.Policy.{role_allows, scope_matches}

-- frozenset(value.strip() for value in bootstrap_owner_ids if value.strip())
normalized_ids : List Text → List Text
normalized_ids ids = keep (λ id. not (is_empty id)) (map strip ids)

pub record AuthorizationService : Type 0 where
  pub bootstrap_owner_ids : List Text

unfoldable pub make_service : List Text → Result AccessError AuthorizationService
unfolding normalized_ids
make_service ids = do
  let normalized = normalized_ids ids
  raise_if (any (λ id. ltb max_identifier (length id)) normalized) bootstrap_owner_id_too_long
  ok (record { bootstrap_owner_ids = normalized })

unfoldable pub is_bootstrap_owner : AuthorizationService → AccessPrincipal → Bool
is_bootstrap_owner service principal =
    any (λ id. id == principal.person_id) service.bootstrap_owner_ids

-- RoleBindingRepository.list_bindings: every current binding, or those of one person, or the
-- database's error.
abbrev pub Listing : Type 0
Listing = Option Text → Result AccessError (List RoleBinding)

abbrev pub grants : Permission → AccessResource → RoleBinding → Bool
grants permission resource binding =
    role_allows binding.role permission && scope_matches binding resource

-- set.add
abbrev pub add_role : AccessRole → List AccessRole → List AccessRole
add_role role roles = if any (role_beq role) roles then roles else role ∷ roles

-- {binding.role for binding in bindings if matches(binding, resource)}
abbrev pub matching_roles : AccessResource → List RoleBinding → List AccessRole
matching_roles resource [] = []
matching_roles resource (binding ∷ rest) =
    let roles = matching_roles resource rest in
    if scope_matches binding resource then add_role binding.role roles else roles

module _ (service : AuthorizationService) (list_bindings : Listing) where
  unfoldable pub allows : AccessPrincipal → Permission → AccessResource → Result AccessError Bool
  unfolding is_bootstrap_owner
  allows principal permission resource =
      if is_bootstrap_owner service principal then ok true else do
        bindings ← list_bindings (some principal.person_id)
        ok (any (grants permission resource) bindings)

  unfoldable pub require :
      AccessPrincipal → Permission → AccessResource → Result AccessError (Unit {0})
  require principal permission resource = do
    allowed ← allows principal permission resource
    raise_if (not allowed) permission_denied

  unfoldable pub effective_roles :
      AccessPrincipal → AccessResource → Result AccessError (List AccessRole)
  unfolding is_bootstrap_owner
  effective_roles principal resource = do
    bindings ← list_bindings (some principal.person_id)
    let roles = matching_roles resource bindings
    ok (if is_bootstrap_owner service principal then add_role owner roles else roles)
