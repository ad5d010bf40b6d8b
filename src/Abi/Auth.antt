-- ===== src/Abi/Auth.antt =====
-- runtime_auth.h: the records of control authentication.
use coakka_runtime_swift.Abi.Layout.{CType, int32, pointer, size_t, struct, end, ◌∶◌, ◌⨾◌}

unfoldable pub runtime_auth_user : CType
runtime_auth_user =
    struct
      ("struct_size" ∶ size_t ⨾ "username" ∶ pointer ⨾ "password" ∶ pointer ⨾ "role" ∶ int32 ⨾ end)

unfoldable pub runtime_auth_config : CType
runtime_auth_config =
    struct ("struct_size" ∶ size_t ⨾ "users" ∶ pointer ⨾ "user_count" ∶ size_t ⨾ end)

unfoldable pub runtime_auth_result : CType
runtime_auth_result = struct ("struct_size" ∶ size_t ⨾ "code" ∶ int32 ⨾ "role" ∶ int32 ⨾ end)

unfoldable pub runtime_auth_context : CType
runtime_auth_context =
    struct ("struct_size" ∶ size_t ⨾ "authenticated" ∶ int32 ⨾ "role" ∶ int32 ⨾ end)

unfoldable pub runtime_auth_config_summary : CType
runtime_auth_config_summary = struct (
    "struct_size" ∶ size_t
    ⨾ "config_present" ∶ int32
    ⨾ "user_count" ∶ size_t
    ⨾ "viewer_count" ∶ size_t
    ⨾ "operator_count" ∶ size_t
    ⨾ "admin_count" ∶ size_t
    ⨾ end)

unfoldable pub runtime_auth_policy : CType
runtime_auth_policy =
    struct ("struct_size" ∶ size_t ⨾ "observe_min_role" ∶ int32 ⨾ "control_min_role" ∶ int32 ⨾ end)
