-- ===== src/Access/Grants.antt =====
-- A granted role is in force at once, and a revoked one is gone.
use cywl_oopz.Prelude.{
  ◌≡◌, ◌∙◌, inl, inr, Bool, true, not, ◌&&◌, List, [], ◌∷◌, some, arith, any, any_mono, any-keep,
  any-append, ok, Result-cases, ◌==◌, ==_iff, ==_refl, list_eq, nat_eq,
}
use cywl_oopz.Prelude.Text.{Text, strip, strip_idem}
use cywl_oopz.Access.Models.{
  AccessRole, Permission, RoleBinding, RoleBindingScope, AccessResource, AccessPrincipal,
  identifier, make_principal, make_binding, role_beq_refl, scope_beq_refl, area_resource,
  channel_resource,
}
use cywl_oopz.Access.Policy.{role_allows, scope_matches}
use cywl_oopz.Access.Service.{AuthorizationService, Listing, grants, allows}
use cywl_oopz.Access.Administration.{
  binding_address, addressed, resource_for_scope, grant, insert_binding, select_bindings,
  same_assignment, revoke,
}

identifier_lem : (value id : Text) → identifier value ≡ ok id → id ≡ strip value
unfolding identifier
identifier_lem value id h = ground arith

make_principal_lem :
    (raw : Text) (p : AccessPrincipal) → make_principal raw ≡ ok p → strip p.person_id ≡ p.person_id
unfolding make_principal
make_principal_lem raw p h = elim (Result-cases (identifier raw)) [
  | inl (id, e) ↦ ground (arith, identifier_lem raw id, strip_idem raw)
  | inr (x, e) ↦ ground arith
]

-- What a made binding holds.
make_binding_lem :
    (subject : Text) (role : AccessRole) (scope : RoleBindingScope) (area channel by : Text)
    (b : RoleBinding)
    → make_binding subject role scope area channel by ≡ ok b
    → (b.subject_person_id ≡ strip subject)
      × (b.role ≡ role)
      × (b.scope ≡ scope)
      × (b.area_id ≡ strip area)
      × (b.channel_id ≡ strip channel)
unfolding make_binding
make_binding_lem subject role scope area channel by b h = elim (Result-cases (identifier subject)) [
  | inl (id, e) ↦ ground (arith, identifier_lem subject id)
  | inr (x, e) ↦ ground arith
]

-- A binding matches the resource that its scope names at its address.
matches-addressed :
    (b : RoleBinding) (area channel : Text) (target : AccessResource)
    → b.area_id ≡ strip area
    → b.channel_id ≡ strip channel
    → addressed b.scope (area, channel) ≡ ok target
    → scope_matches b target ≡ true
unfolding scope_matches area_resource channel_resource
matches-addressed b area channel target a c h =
    ground (arith, ==_iff b.area_id target.area_id, ==_iff b.channel_id target.channel_id)

abbrev pub same_as : RoleBinding → RoleBinding → Bool
same_as b = same_assignment b.subject_person_id b.role b.scope b.area_id b.channel_id

same_as_refl : (b : RoleBinding) → same_as b b ≡ true
same_as_refl b = ground (
  arith,
  ==_refl b.subject_person_id,
  ==_refl b.area_id,
  ==_refl b.channel_id,
  role_beq_refl b.role,
  scope_beq_refl b.scope,
)

any-insert_binding :
    (b : RoleBinding) (rows : List RoleBinding) → any (same_as b) (insert_binding b rows).1 ≡ true
unfolding insert_binding
any-insert_binding b rows = ground (arith, any-append (same_as b) rows (b ∷ []), same_as_refl b)

-- A row of the same assignment as a made binding grants what the binding's role allows.
same_as-grants :
    (b row : RoleBinding) (permission : Permission) (target : AccessResource)
    → role_allows b.role permission ≡ true
    → scope_matches b target ≡ true
    → same_as b row ≡ true
    → (row.subject_person_id == b.subject_person_id) && grants permission target row ≡ true
unfolding role_allows scope_matches
same_as-grants b row permission target r m h = ground (
  arith,
  ==_iff row.subject_person_id b.subject_person_id,
  ==_iff row.area_id b.area_id,
  ==_iff row.channel_id b.channel_id,
)

module _ (order_by : List RoleBinding → List RoleBinding)
    (keeps_rows : (f : RoleBinding → Bool) (rows : List RoleBinding)
      → any f (order_by rows) ≡ any f rows) where
  abbrev pub Listed : List RoleBinding → Listing
  Listed rows subject = ok (select_bindings order_by rows subject)

  any-select_bindings :
      (f : RoleBinding → Bool) (rows : List RoleBinding) (subject : Text)
      → any f (select_bindings order_by rows (some subject))
        ≡ any (λ r. (r.subject_person_id == subject) && f r) rows
  unfolding select_bindings
  any-select_bindings f rows subject =
      keeps_rows f _ ∙ any-keep f (λ r. r.subject_person_id == subject) rows

  granted_row :
      (service : AuthorizationService) (subject : AccessPrincipal) (permission : Permission)
      (target : AccessResource) (b : RoleBinding) (rows rows' : List RoleBinding)
      → rows' ≡ (insert_binding b rows).1
      → b.subject_person_id ≡ subject.person_id
      → role_allows b.role permission ≡ true
      → scope_matches b target ≡ true
      → allows service (Listed rows') subject permission target ≡ ok true
  unfolding allows
  granted_row service subject permission target b rows rows' e s r m = ground (
    arith,
    any-select_bindings (grants permission target) rows' subject.person_id,
    any_mono (same_as b)
        (λ row. (row.subject_person_id == subject.person_id) && grants permission target row) rows'
        (rw (← s) (λ row. same_as-grants b row permission target r m)),
    any-insert_binding b rows,
  )

  -- After a grant to a valid subject, the subject is allowed what the role allows on the
  -- resource of the grant's scope. The server may list the rows in any order.
  pub grant-allows :
      (service : AuthorizationService) (raw : Text) (actor subject : AccessPrincipal)
      (role : AccessRole) (scope : RoleBindingScope) (current target : AccessResource)
      (permission : Permission) (rows rows' : List RoleBinding) (created : Bool)
      → make_principal raw ≡ ok subject
      → grant actor subject role scope current rows ≡ ok (created, rows')
      → resource_for_scope scope current ≡ ok target
      → role_allows role permission ≡ true
      → allows service (Listed rows') subject permission target ≡ ok true
  unfolding grant resource_for_scope
  grant-allows service raw actor subject role scope current target permission rows rows' created p g
        t r =
      elim (Result-cases (binding_address scope current)) [
        | inr (e, failed) ↦ ground arith
        | inl ((area, channel), at) ↦
            elim (Result-cases
              (make_binding subject.person_id role scope area channel actor.person_id)) [
                | inr (e, failed) ↦ ground arith
                | inl (b, made) ↦
                    let (who, what, where_, a, c) =
                      make_binding_lem subject.person_id role scope area channel actor.person_id b
                        made in
                    granted_row service subject permission target b rows rows' (ground arith)
                      (who ∙ make_principal_lem raw subject p) (rw what r)
                      (matches-addressed b area channel target a c (rw where_ (ground arith)))
              ]
      ]

-- A revocation leaves no row of its assignment, and every row of another assignment: any test
-- holds of a row that is left exactly when it holds of a row that was there and was not of the
-- assignment.
revoke-any :
    (service : AuthorizationService) (subject : AccessPrincipal) (role : AccessRole)
    (scope : RoleBindingScope) (current : AccessResource) (rows rows' : List RoleBinding)
    (removed : Bool) (area channel : Text)
    → revoke service subject role scope current rows ≡ ok (removed, rows')
    → binding_address scope current ≡ ok (area, channel)
    → (f : RoleBinding → Bool)
    → any f rows'
      ≡ any (λ r. not (same_assignment subject.person_id role scope area channel r) && f r) rows
unfolding revoke
revoke-any service subject role scope current rows rows' removed area channel h at f = ground (
  arith,
  any-keep f (λ r. not (same_assignment subject.person_id role scope area channel r)) rows,
)
