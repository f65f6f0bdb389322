-- ===== src/Examples/Access.antt =====
-- The access theorems at concrete people, roles and channels.
use cywl_oopz.Prelude.{◌≡◌, refl, true, List, [], ◌∷◌, none, ok, All}
use cywl_oopz.Prelude.Text.{Text, codes, strip, lstrip, is_space}
use cywl_oopz.Access.Models.{
  admin, moderator, bot_message_recall, RoleBinding, RoleBindingScope, AccessResource,
  AccessResourceKind, make_principal, make_binding, make_resource, identifier, area_resource,
  channel_resource,
}
use cywl_oopz.Access.Policy.{role_allows, scope_matches}
use cywl_oopz.Access.Service.{AuthorizationService, Listing, is_bootstrap_owner, allows}
use cywl_oopz.Access.Administration.{
  binding_address, resource_for_scope, grant, insert_binding, select_bindings, visible_bindings,
  visible_locally,
}
use cywl_oopz.Access.Visibility.{May, visible_bindings-May}
use cywl_oopz.Access.Grants.{Listed, grant-allows}

abbrev ann : Text
ann = codes "ann"

abbrev bob : Text
bob = codes "bob"

abbrev hall : Text
hall = codes "hall"

abbrev desk : Text
desk = codes "desk"

abbrev here : AccessResource
here = record { kind = AccessResourceKind.channel; area_id = hall; channel_id = desk }

abbrev service : AuthorizationService
service = record { bootstrap_owner_ids = [] }

abbrev bob_moderates : RoleBinding
bob_moderates = record {
  subject_person_id = bob;
  role = moderator;
  scope = RoleBindingScope.channel;
  area_id = hall;
  channel_id = desk;
  granted_by_person_id = ann;
}

abbrev ann_administers : RoleBinding
ann_administers = record {
  subject_person_id = ann;
  role = admin;
  scope = RoleBindingScope.area;
  area_id = hall;
  channel_id = [];
  granted_by_person_id = ann;
}

abbrev rows : List RoleBinding
rows = ann_administers ∷ bob_moderates ∷ []

abbrev order_by : List RoleBinding → List RoleBinding
order_by rows = rows

abbrev listing : Listing
listing subject = ok (select_bindings order_by rows subject)

grant-allows_example :
    allows service
      (Listed order_by (λ f r. refl) rows)
      (record { person_id = bob })
      bot_message_recall
      here
    ≡ ok true
unfolding make_principal make_resource identifier strip lstrip is_space grant binding_address
    insert_binding make_binding resource_for_scope channel_resource role_allows
grant-allows_example =
    grant-allows order_by (λ f r. refl) service (codes " bob ") (record { person_id = ann })
      (record { person_id = bob }) moderator RoleBindingScope.channel here here bot_message_recall
      (ann_administers ∷ []) rows true refl refl refl refl

visible_bindings-May_example : All (May service listing (record { person_id = ann })) rows
unfolding visible_bindings visible_locally area_resource make_resource select_bindings allows
    is_bootstrap_owner role_allows scope_matches strip lstrip is_space
visible_bindings-May_example =
    visible_bindings-May service listing (record { person_id = ann }) here none rows refl refl
