-- ===== src/Access/Administration.antt =====
-- features/access/administration.py, over the rows of features/access/repository.py.
use cywl_oopz.Prelude.{
  Bool, true, false, not, ◌&&◌, ◌||◌, List, [], ◌∷◌, Option, none, some, if◌then◌else◌, any, keep,
  count, ◌++◌, ◌==◌, nat_eq, list_eq, Result, ok, ◌>>=◌, ◌>>◌, raise_if,
}
use mathlib.Core.Option
use cywl_oopz.Prelude.Text.{Text}
use cywl_oopz.Access.Models.{
  AccessRole, owner, role_beq, rbac_view, rbac_manage, RoleBinding, RoleBindingScope, scope_beq,
  AccessResource, is_addressed, is_channel, AccessPrincipal, AccessError,
  bootstrap_owner_not_revocable, channel_context_required, global_resource, area_resource,
  channel_resource, make_binding,
}
use cywl_oopz.Access.Service.{AuthorizationService, is_bootstrap_owner, Listing, allows}

-- RoleAdministrationService._binding_address
unfoldable pub binding_address :
    RoleBindingScope → AccessResource → Result AccessError (Text × Text)
binding_address RoleBindingScope.global current = ok ([], [])
binding_address RoleBindingScope.area current = do
  raise_if (not (is_addressed current.kind)) channel_context_required
  ok (current.area_id, [])
binding_address RoleBindingScope.channel current = do
  raise_if (not (is_addressed current.kind)) channel_context_required
  raise_if (not (is_channel current.kind)) channel_context_required
  ok (current.area_id, current.channel_id)

-- The resource of a scope at an address.
abbrev pub addressed : RoleBindingScope → Text × Text → Result AccessError AccessResource
addressed RoleBindingScope.global address = ok global_resource
addressed RoleBindingScope.area address = area_resource address.0
addressed RoleBindingScope.channel address = channel_resource address.0 address.1

unfoldable pub resource_for_scope :
    RoleBindingScope → AccessResource → Result AccessError AccessResource
unfolding binding_address
resource_for_scope scope current = do
  address ← binding_address scope current
  addressed scope address

-- The columns of the unique index, and of the WHERE of a delete.
abbrev pub same_assignment : Text → AccessRole → RoleBindingScope → Text → Text → RoleBinding → Bool
same_assignment subject role scope area_id channel_id row =
    row.subject_person_id == subject
    && role_beq row.role role
    && scope_beq row.scope scope
    && row.area_id == area_id
    && row.channel_id == channel_id

-- SqlAlchemyRoleBindingRepository.list_bindings; `order_by` is the server's ORDER BY.
unfoldable pub select_bindings :
    (List RoleBinding → List RoleBinding) → List RoleBinding → Option Text → List RoleBinding
select_bindings order_by rows none = order_by rows
select_bindings order_by rows (some subject) =
    order_by (keep (λ r. r.subject_person_id == subject) rows)

-- INSERT … ON CONFLICT DO NOTHING, and whether a row was inserted.
unfoldable pub insert_binding : RoleBinding → List RoleBinding → Bool × List RoleBinding
insert_binding b rows =
    if any (same_assignment b.subject_person_id b.role b.scope b.area_id b.channel_id) rows
    then (false, rows)
    else (true, rows ++ b ∷ [])

-- DELETE … WHERE, and whether its rowcount was 1.
unfoldable pub delete_binding :
    Text → AccessRole → RoleBindingScope → Text → Text → List RoleBinding → Bool × List RoleBinding
delete_binding subject role scope area_id channel_id rows =
    let same = same_assignment subject role scope area_id channel_id in
    (count same rows == 1, keep (λ r. not (same r)) rows)

-- RoleAdministrationService.grant
unfoldable pub grant :
    AccessPrincipal
    → AccessPrincipal
    → AccessRole
    → RoleBindingScope
    → AccessResource
    → List RoleBinding
    → Result AccessError (Bool × List RoleBinding)
unfolding binding_address insert_binding
grant actor subject role scope current rows = do
  address ← binding_address scope current
  binding ← make_binding subject.person_id role scope address.0 address.1 actor.person_id
  ok (insert_binding binding rows)

-- RoleAdministrationService.revoke
unfoldable pub revoke :
    AuthorizationService
    → AccessPrincipal
    → AccessRole
    → RoleBindingScope
    → AccessResource
    → List RoleBinding
    → Result AccessError (Bool × List RoleBinding)
unfolding binding_address delete_binding
revoke service subject role scope current rows = do
  raise_if (is_bootstrap_owner service subject) bootstrap_owner_not_revocable
  address ← binding_address scope current
  ok (delete_binding subject.person_id role scope address.0 address.1 rows)

module _ (service : AuthorizationService) (list_bindings : Listing) where
  -- The branches of visible_bindings below the global permissions.
  unfoldable pub visible_locally :
      AccessPrincipal → AccessResource → List RoleBinding → Result AccessError (List RoleBinding)
  visible_locally viewer current records = if not (is_addressed current.kind) then ok [] else do
    area ← area_resource current.area_id
    views_area ← allows service list_bindings viewer rbac_view area
    views_channel ←
        if views_area || not (is_channel current.kind)
        then ok false
        else allows service list_bindings viewer rbac_view current
    ok (
        if views_area
        then keep
            (λ r. not (scope_beq r.scope RoleBindingScope.global) && r.area_id == current.area_id)
            records
        else if views_channel
        then keep
            (λ r.
              scope_beq r.scope RoleBindingScope.channel
              && r.area_id == current.area_id
              && r.channel_id == current.channel_id)
            records
        else [])

  unfoldable pub visible_bindings :
      AccessPrincipal
      → AccessResource
      → Option AccessPrincipal
      → Result AccessError (List RoleBinding)
  visible_bindings viewer current subject = do
    records ← list_bindings (Option.map (λ p. p.person_id) subject)
    manages ← allows service list_bindings viewer rbac_manage global_resource
    if manages then ok records else do
      views ← allows service list_bindings viewer rbac_view global_resource
      if views
          then ok (keep (λ r. not (role_beq r.role owner)) records)
          else visible_locally viewer current records
