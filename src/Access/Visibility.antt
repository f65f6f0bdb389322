-- ===== src/Access/Visibility.antt =====
-- What visible_bindings may show to a viewer.
use cywl_oopz.Prelude.{
  ◌≡◌, inl, inr, Bool, true, false, not, ◌&&◌, List, some, arith, any_mono, All, All-keep, keep,
  All-of_All, Option, ok, Result-cases, ◌==◌, ==_iff, list_eq, nat_eq,
}
use mathlib.Core.Option
use cywl_oopz.Prelude.Text.{Text, strip}
use cywl_oopz.Access.Models.{
  owner, Permission, rbac_view, rbac_manage, RoleBinding, RoleBindingScope, AccessResource,
  AccessResourceKind, AccessPrincipal, global_resource, area_resource, scope_beq, is_channel,
  role_beq,
}
use cywl_oopz.Access.Policy.{role_allows, scope_matches}
use cywl_oopz.Access.Service.{AuthorizationService, Listing, grants, allows}
use cywl_oopz.Access.Administration.{visible_locally, visible_bindings}

abbrev pub kind_of : RoleBindingScope → AccessResourceKind
kind_of RoleBindingScope.global = AccessResourceKind.global
kind_of RoleBindingScope.area = AccessResourceKind.area
kind_of RoleBindingScope.channel = AccessResourceKind.channel

-- The resource that a binding is about.
abbrev pub resource_of : RoleBinding → AccessResource
resource_of r = record { kind = kind_of r.scope; area_id = r.area_id; channel_id = r.channel_id }

manage-grants :
    (resource : AccessResource) (b : RoleBinding)
    → grants rbac_manage global_resource b ≡ true
    → grants rbac_view resource b ≡ true
unfolding role_allows scope_matches
manage-grants resource b h = ground arith

view-grants :
    (resource : AccessResource) (b : RoleBinding)
    → grants rbac_view global_resource b ≡ true
    → grants rbac_view resource b ≡ true
unfolding role_allows scope_matches
view-grants resource b h = ground arith

area-grants :
    (r : RoleBinding) (area : AccessResource) (b : RoleBinding)
    → area.kind ≡ AccessResourceKind.area
    → r.area_id ≡ area.area_id
    → scope_beq r.scope RoleBindingScope.global ≡ false
    → grants rbac_view area b ≡ true
    → grants rbac_view (resource_of r) b ≡ true
unfolding role_allows scope_matches
area-grants r area b k a s h = ground arith

channel-grants :
    (r : RoleBinding) (current : AccessResource) (b : RoleBinding)
    → is_channel current.kind ≡ true
    → r.area_id ≡ current.area_id
    → r.channel_id ≡ current.channel_id
    → scope_beq r.scope RoleBindingScope.channel ≡ true
    → grants rbac_view current b ≡ true
    → grants rbac_view (resource_of r) b ≡ true
unfolding role_allows scope_matches
channel-grants r current b k a c s h = ground arith

area_resource_lem :
    (id : Text) (area : AccessResource)
    → area_resource id ≡ ok area
    → (area.kind ≡ AccessResourceKind.area) × (area.area_id ≡ strip id)
unfolding area_resource
area_resource_lem id area h = ground arith

module _ (service : AuthorizationService) (list_bindings : Listing) (viewer : AccessPrincipal) where
  allows_mono :
      (p q : Permission) (res target : AccessResource)
      → ((b : RoleBinding) → grants p res b ≡ true → grants q target b ≡ true)
      → allows service list_bindings viewer p res ≡ ok true
      → allows service list_bindings viewer q target ≡ ok true
  unfolding allows
  allows_mono p q res target h e = elim (Result-cases (list_bindings (some viewer.person_id))) [
    | inl (bindings, loaded) ↦ ground (arith, any_mono (grants p res) (grants q target) bindings h)
    | inr (x, failed) ↦ ground arith
  ]

  abbrev pub May : RoleBinding → Type 0
  May r = allows service list_bindings viewer rbac_view (resource_of r) ≡ ok true

  All-May-manage :
      (records : List RoleBinding)
      → allows service list_bindings viewer rbac_manage global_resource ≡ ok true
      → All May records
  All-May-manage records m = All-of_All May records (λ r.
      allows_mono rbac_manage rbac_view global_resource (resource_of r)
        (manage-grants (resource_of r)) m)

  All-May-view :
      (f : RoleBinding → Bool) (records : List RoleBinding)
      → allows service list_bindings viewer rbac_view global_resource ≡ ok true
      → All May (keep f records)
  All-May-view f records v = All-keep May f records (λ r _.
      allows_mono rbac_view rbac_view global_resource (resource_of r) (view-grants (resource_of r))
        v)

  abbrev in_area : AccessResource → RoleBinding → Bool
  in_area current r =
      not (scope_beq r.scope RoleBindingScope.global) && r.area_id == current.area_id

  All-May-area :
      (current area : AccessResource) (records : List RoleBinding)
      → strip current.area_id ≡ current.area_id
      → area_resource current.area_id ≡ ok area
      → allows service list_bindings viewer rbac_view area ≡ ok true
      → All May (keep (in_area current) records)
  All-May-area current area records n made v = All-keep May (in_area current) records (λ r inside.
      allows_mono rbac_view rbac_view area (resource_of r)
        (λ b.
          area-grants r area b (ground (arith, area_resource_lem current.area_id area made))
            (ground (
              arith,
              area_resource_lem current.area_id area made,
              ==_iff r.area_id current.area_id,
            ))
            (ground arith))
        v)

  abbrev in_channel : AccessResource → RoleBinding → Bool
  in_channel current r =
      scope_beq r.scope RoleBindingScope.channel
      && r.area_id == current.area_id
      && r.channel_id == current.channel_id

  All-May-channel :
      (current : AccessResource) (records : List RoleBinding)
      → is_channel current.kind ≡ true
      → allows service list_bindings viewer rbac_view current ≡ ok true
      → All May (keep (in_channel current) records)
  All-May-channel current records k v = All-keep May (in_channel current) records (λ r inside.
      allows_mono rbac_view rbac_view current (resource_of r)
        (λ b.
          channel-grants r current b k (ground (arith, ==_iff r.area_id current.area_id))
            (ground (arith, ==_iff r.channel_id current.channel_id)) (ground arith))
        v)

  visible_locally-May :
      (current : AccessResource) (records shown : List RoleBinding)
      → strip current.area_id ≡ current.area_id
      → visible_locally service list_bindings viewer current records ≡ ok shown
      → All May shown
  unfolding visible_locally
  visible_locally-May current records shown n h =
      elim (Result-cases (area_resource current.area_id)) [
        | inl (area, made) ↦
            ground
              (arith, All-May-area current area records n made, All-May-channel current records)
        | inr (e, failed) ↦ ground arith
      ]

  -- Where the area of the current resource is a stripped text, every binding that a viewer is
  -- shown is one whose own resource the viewer may view by the same listing.
  pub visible_bindings-May :
      (current : AccessResource) (subject : Option AccessPrincipal) (shown : List RoleBinding)
      → strip current.area_id ≡ current.area_id
      → visible_bindings service list_bindings viewer current subject ≡ ok shown
      → All May shown
  unfolding visible_bindings
  visible_bindings-May current subject shown n h =
      elim (Result-cases (list_bindings (Option.map (λ p. p.person_id) subject))) [
        | inl (records, loaded) ↦ ground (
          arith,
          All-May-manage records,
          All-May-view (λ r. not (role_beq r.role owner)) records,
          visible_locally-May current records shown n,
        )
        | inr (e, failed) ↦ ground arith
      ]
