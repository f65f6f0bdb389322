-- ===== src/Access/Models.antt =====
-- The values of features/access/models.py. An enumeration is a data type, a dataclass is a record
-- with a maker that runs its __post_init__ and may raise.
use cywl_oopz.Prelude.{
  ℕ, ◌≡◌, ◌↔◌, Bool, true, false, not, ◌&&◌, ◌||◌, [], ◌∷◌, arith, ltb, length, list_eq, nat_eq,
  Result, ok, ◌>>=◌, ◌>>◌, raise_if,
}
use cywl_oopz.Prelude.Text.{Text, strip}

pub data AccessRole : Type 0 where
  owner admin moderator : AccessRole

pub data Permission : Type 0 where
  bot_reboot agent_response_debug bot_message_recall : Permission
  channel_initialize rbac_view rbac_manage : Permission

pub data RoleBindingScope : Type 0 where
  global area channel : RoleBindingScope

pub data AccessResourceKind : Type 0 where
  global private area channel : AccessResourceKind

-- The exceptions: ValueError with its message's case, AuthorizationError and DatabaseError.
pub data AccessError : Type 0 where
  identifier_empty identifier_too_long resource_identifier_too_long : AccessError
  unexpected_address area_required channel_required : AccessError
  owner_must_be_global bootstrap_owner_id_too_long : AccessError
  bootstrap_owner_not_revocable channel_context_required : AccessError
  permission_denied database_error : AccessError

abbrev pub role_beq : AccessRole → AccessRole → Bool
role_beq owner owner = true
role_beq admin admin = true
role_beq moderator moderator = true
role_beq _ _ = false

pub role_beq_iff : (a b : AccessRole) → (role_beq a b ≡ true) ↔ (a ≡ b)
role_beq_iff a b = ground arith

abbrev pub permission_beq : Permission → Permission → Bool
permission_beq bot_reboot bot_reboot = true
permission_beq agent_response_debug agent_response_debug = true
permission_beq bot_message_recall bot_message_recall = true
permission_beq channel_initialize channel_initialize = true
permission_beq rbac_view rbac_view = true
permission_beq rbac_manage rbac_manage = true
permission_beq _ _ = false

abbrev pub scope_beq : RoleBindingScope → RoleBindingScope → Bool
scope_beq RoleBindingScope.global RoleBindingScope.global = true
scope_beq RoleBindingScope.area RoleBindingScope.area = true
scope_beq RoleBindingScope.channel RoleBindingScope.channel = true
scope_beq _ _ = false

pub role_beq_refl : (a : AccessRole) → role_beq a a ≡ true
role_beq_refl a = ground arith

pub scope_beq_refl : (a : RoleBindingScope) → scope_beq a a ≡ true
scope_beq_refl a = ground arith

-- resource.kind in {AREA, CHANNEL}
abbrev pub is_addressed : AccessResourceKind → Bool
is_addressed AccessResourceKind.area = true
is_addressed AccessResourceKind.channel = true
is_addressed _ = false

abbrev pub is_channel : AccessResourceKind → Bool
is_channel AccessResourceKind.channel = true
is_channel _ = false

abbrev pub max_identifier : ℕ
max_identifier = 128

abbrev pub is_empty : Text → Bool
is_empty [] = true
is_empty (c ∷ s) = false

unfoldable pub identifier : Text → Result AccessError Text
identifier value = do
  let normalized = strip value
  raise_if (is_empty normalized) identifier_empty
  raise_if (ltb max_identifier (length normalized)) identifier_too_long
  ok normalized

pub record AccessPrincipal : Type 0 where
  pub person_id : Text

unfoldable pub make_principal : Text → Result AccessError AccessPrincipal
make_principal person_id = do
  normalized ← identifier person_id
  ok (record { person_id = normalized })

pub record AccessResource : Type 0 where
  pub kind : AccessResourceKind
  pub area_id : Text
  pub channel_id : Text

-- The address that a resource of a kind must and must not carry.
abbrev pub check_resource : AccessResourceKind → Text → Text → Result AccessError (Unit {0})
check_resource AccessResourceKind.global area_id channel_id =
    raise_if (not (is_empty area_id) || not (is_empty channel_id)) unexpected_address
check_resource AccessResourceKind.private area_id channel_id =
    raise_if (not (is_empty area_id) || not (is_empty channel_id)) unexpected_address
check_resource AccessResourceKind.area area_id channel_id =
    raise_if (is_empty area_id || not (is_empty channel_id)) area_required
check_resource AccessResourceKind.channel area_id channel_id =
    raise_if (is_empty area_id || is_empty channel_id) channel_required

unfoldable pub make_resource : AccessResourceKind → Text → Text → Result AccessError AccessResource
make_resource kind area_value channel_value = do
  let area_id = strip area_value
  let channel_id = strip channel_value
  raise_if (ltb max_identifier (length area_id) || ltb max_identifier (length channel_id))
      resource_identifier_too_long
  check_resource kind area_id channel_id
  ok (record { kind = kind; area_id = area_id; channel_id = channel_id })

abbrev pub global_resource : AccessResource
global_resource = record { kind = AccessResourceKind.global; area_id = []; channel_id = [] }

unfoldable pub area_resource : Text → Result AccessError AccessResource
unfolding make_resource
area_resource area_id = make_resource AccessResourceKind.area area_id []

unfoldable pub channel_resource : Text → Text → Result AccessError AccessResource
unfolding make_resource
channel_resource area_id channel_id = make_resource AccessResourceKind.channel area_id channel_id

pub record RoleBinding : Type 0 where
  pub subject_person_id : Text
  pub role : AccessRole
  pub scope : RoleBindingScope
  pub area_id : Text
  pub channel_id : Text
  pub granted_by_person_id : Text

abbrev pub check_binding : RoleBindingScope → Text → Text → Result AccessError (Unit {0})
check_binding RoleBindingScope.global area_id channel_id =
    raise_if (not (is_empty area_id) || not (is_empty channel_id)) unexpected_address
check_binding RoleBindingScope.area area_id channel_id =
    raise_if (is_empty area_id || not (is_empty channel_id)) area_required
check_binding RoleBindingScope.channel area_id channel_id =
    raise_if (is_empty area_id || is_empty channel_id) channel_required

unfoldable pub make_binding :
    Text → AccessRole → RoleBindingScope → Text → Text → Text → Result AccessError RoleBinding
make_binding subject_person_id role scope area_value channel_value granted_by_person_id = do
  subject ← identifier subject_person_id
  let area_id = strip area_value
  let channel_id = strip channel_value
  let granted_by = strip granted_by_person_id
  raise_if
      (ltb max_identifier (length area_id)
        || ltb max_identifier (length channel_id)
        || ltb max_identifier (length granted_by))
      resource_identifier_too_long
  check_binding scope area_id channel_id
  raise_if (role_beq role owner && not (scope_beq scope RoleBindingScope.global))
      owner_must_be_global
  ok (record {
    subject_person_id = subject;
    role = role;
    scope = scope;
    area_id = area_id;
    channel_id = channel_id;
    granted_by_person_id = granted_by;
  })
