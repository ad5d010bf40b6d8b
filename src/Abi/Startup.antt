-- ===== src/Abi/Startup.antt =====
-- runtime_startup.h: the startup records.
use coakka_runtime_swift.Abi.Layout.{
  CType, int32, int64, pointer, array, size_t, struct, end, ◌∶◌, ◌⨾◌,
}
use coakka_runtime_swift.Abi.Transport.{tcp_connection_config_snapshot}

unfoldable pub startup_execution_options : CType
startup_execution_options =
    struct ("struct_size" ∶ size_t ⨾ "cpu_policy" ∶ int32 ⨾ "reserved" ∶ int32 ⨾ end)

unfoldable pub startup_io_options : CType
startup_io_options =
    struct ("struct_size" ∶ size_t ⨾ "use_io_uring" ∶ int32 ⨾ "reserved" ∶ int32 ⨾ end)

unfoldable pub startup_monitor_options : CType
startup_monitor_options =
    struct ("struct_size" ∶ size_t ⨾ "enabled" ∶ int32 ⨾ "reserved" ∶ int32 ⨾ end)

unfoldable pub runtime_startup_options : CType
runtime_startup_options = struct (
    "struct_size" ∶ size_t
    ⨾ "execution" ∶ pointer
    ⨾ "connection" ∶ pointer
    ⨾ "io" ∶ pointer
    ⨾ "monitor" ∶ pointer
    ⨾ end)

unfoldable pub runtime_delivery_config : CType
runtime_delivery_config = struct (
    "struct_size" ∶ size_t
    ⨾ "compiled" ∶ int32
    ⨾ "request_mode" ∶ int32
    ⨾ "response_mode" ∶ int32
    ⨾ "remote_batch_max_calls" ∶ int32
    ⨾ "slot_capacity" ∶ int32
    ⨾ "reserved" ∶ int32
    ⨾ "byte_capacity" ∶ int64
    ⨾ end)

unfoldable pub startup_cpu_info : CType
startup_cpu_info = struct (
    "requested_policy" ∶ int32
    ⨾ "supported" ∶ int32
    ⨾ "available_cpu_count" ∶ int32
    ⨾ "selected_cpu_count" ∶ int32
    ⨾ "selected_cpu_ids" ∶ array int32 2
    ⨾ "startup_applied" ∶ int32
    ⨾ "reserved" ∶ int32
    ⨾ end)

unfoldable pub startup_io_info : CType
startup_io_info = struct (
    "requested" ∶ int32
    ⨾ "compiled" ∶ int32
    ⨾ "probed" ∶ int32
    ⨾ "supported" ∶ int32
    ⨾ "effective" ∶ int32
    ⨾ "probe_error" ∶ int32
    ⨾ end)

unfoldable pub startup_monitor_info : CType
startup_monitor_info = struct ("enabled" ∶ int32 ⨾ "reserved" ∶ int32 ⨾ end)

unfoldable pub runtime_startup_config : CType
unfolding startup_cpu_info startup_io_info startup_monitor_info tcp_connection_config_snapshot
runtime_startup_config = struct (
    "struct_size" ∶ size_t
    ⨾ "defaults_revision" ∶ int32
    ⨾ "defaulted_groups" ∶ int32
    ⨾ "strict_no_drop" ∶ int32
    ⨾ "queue_capacity" ∶ int32
    ⨾ "request_max_frame_size" ∶ int64
    ⨾ "runtime_state" ∶ int32
    ⨾ "reserved" ∶ int32
    ⨾ "execution" ∶ startup_cpu_info
    ⨾ "connection" ∶ tcp_connection_config_snapshot
    ⨾ "io" ∶ startup_io_info
    ⨾ "monitor" ∶ startup_monitor_info
    ⨾ end)
