-- ===== src/Abi/Lanes.antt =====
-- lane_grant.h: the owner records of both lanes.
use coakka_runtime_swift.Abi.Layout.{
  CType, int8, int16, pointer, array, size_t, struct, end, ◌∶◌, ◌⨾◌,
}

unfoldable pub lane_owner_config : CType
lane_owner_config =
    struct
      ("struct_size" ∶ size_t ⨾ "owner_instance_id" ∶ pointer ⨾ "advertised_host" ∶ pointer ⨾ end)

unfoldable pub lane_owner_endpoint : CType
lane_owner_endpoint = struct (
    "struct_size" ∶ size_t
    ⨾ "port" ∶ int16
    ⨾ "reserved" ∶ int16
    ⨾ "owner_instance_id" ∶ array int8 128
    ⨾ "advertised_host" ∶ array int8 256
    ⨾ end)
