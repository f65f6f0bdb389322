-- ===== src/Access/Policy.antt =====
-- features/access/policy.py
use cywl_oopz.Prelude.{Bool, true, ◌&&◌, List, [], ◌∷◌, any, ◌==◌, nat_eq, list_eq}
use cywl_oopz.Access.Models.{
  AccessRole, owner, admin, moderator, Permission, bot_reboot, agent_response_debug,
  bot_message_recall, channel_initialize, rbac_view, rbac_manage, permission_beq, RoleBinding,
  RoleBindingScope, AccessResource, is_addressed, is_channel,
}

-- RolePermissionPolicy.permissions
abbrev pub permissions : AccessRole → List Permission
permissions owner =
    bot_reboot ∷ agent_response_debug ∷ bot_message_recall ∷ channel_initialize ∷ rbac_view
    ∷ rbac_manage ∷ []
permissions admin =
    bot_reboot ∷ agent_response_debug ∷ bot_message_recall ∷ channel_initialize ∷ rbac_view ∷ []
permissions moderator = bot_message_recall ∷ []

-- RolePermissionPolicy.allows
unfoldable pub role_allows : AccessRole → Permission → Bool
role_allows role permission = any (permission_beq permission) (permissions role)

-- The part of ScopeMatcher.matches below the test on a global or private resource.
abbrev pub matches_address : RoleBindingScope → RoleBinding → AccessResource → Bool
matches_address RoleBindingScope.area binding resource = binding.area_id == resource.area_id
matches_address _ binding resource =
    is_channel resource.kind
    && binding.area_id == resource.area_id
    && binding.channel_id == resource.channel_id

abbrev pub matches_scope : RoleBindingScope → RoleBinding → AccessResource → Bool
matches_scope RoleBindingScope.global binding resource = true
matches_scope scope binding resource =
    is_addressed resource.kind && matches_address scope binding resource

-- ScopeMatcher.matches
unfoldable pub scope_matches : RoleBinding → AccessResource → Bool
scope_matches binding resource = matches_scope binding.scope binding resource
