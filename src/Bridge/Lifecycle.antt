-- ===== src/Bridge/Lifecycle.antt =====
-- Creation, configuration, start and stop of a runtime (coakka_runtime_bridge.c).
pub mod Ops
pub mod Refines
pub mod Bounded
pub mod Forwarded
pub mod Prepared
pub mod Network
use Prim.Native.Nat.{bit_or}
use coakka_runtime_swift.Prelude.{
  ℕ, Bool, true, false, ◌||◌, ◌&&◌, Option, none, some, ℤ, negsuc, is_null, ◌==◌, not,
  if◌then◌else◌,
}
use coakka_runtime_swift.Status.{Status, invalid_arg}
use coakka_runtime_swift.Abi.Layout.{size}
use coakka_runtime_swift.Abi.Transport.{network_options}
use coakka_runtime_swift.Abi.Runtime.{host_handles}
use coakka_runtime_swift.Core.Records.{
  Ptr, RuntimeConfig, NetworkOptions, HostHandles, ControlSnapshot,
}
use coakka_runtime_swift.Core.Slot.{Slot}
use coakka_runtime_swift.Core.Call.{Call, Reply, stored}
use coakka_runtime_swift.Machine.Heap.{Host}
use coakka_runtime_swift.Machine.Effects.{M, pure, fault, ◌>>=◌, ◌>>◌}
use coakka_runtime_swift.Bridge.Access.{call_slot, deref}

-- { system, node, strict, capacity }
abbrev pub runtime_config : Ptr → Ptr → ℤ → ℤ → RuntimeConfig
runtime_config system_name node_id strict_no_drop queue_capacity = record {
  system_name = system_name;
  node_id = node_id;
  strict_no_drop = strict_no_drop;
  queue_capacity = queue_capacity;
}

-- COAKKA_SWIFT_NETWORK_NODE
abbrev pub network_node : ℕ
network_node = 3

-- if (test) fields |= bit;
unfoldable pub add_field : Bool → ℕ → ℕ → ℕ
add_field test bit fields = if test then bit_or fields bit else fields

-- options.fields of coakka_swift_runtime_apply_network
unfoldable pub network_fields : ℕ → Ptr → ℕ → Ptr → ℕ → ℕ
unfolding add_field
network_fields mode bind_host bind_port advertise_host advertise_port =
    add_field (not (advertise_port == 0)) 0x10 (
      add_field (not (bind_port == 0)) 0x08 (
        add_field (not (is_null advertise_host)) 0x04
          (add_field (not (is_null bind_host)) 0x02 (if mode == network_node then 0x1f else 0x01))))

unfoldable pub network : ℕ → Ptr → ℕ → Ptr → ℕ → NetworkOptions
unfolding network_fields
network mode bind_host bind_port advertise_host advertise_port = record {
  struct_size = size network_options;
  fields = network_fields mode bind_host bind_port advertise_host advertise_port;
  mode = mode;
  reserved = 0;
  bind_host = bind_host;
  advertise_host = advertise_host;
  bind_port = bind_port;
  advertise_port = advertise_port;
  reserved2 = 0;
}

-- The record that coakka_swift_runtime_get_host_handles hands to the Core library.
abbrev pub no_descriptor : ℤ
no_descriptor = negsuc 0

unfoldable pub empty_handles : ℕ → HostHandles
empty_handles flags = record {
  struct_size = size host_handles;
  flags = flags;
  request_write_fd = no_descriptor;
  response_read_fd = no_descriptor;
  deadletter_read_fd = no_descriptor;
  control_write_fd = no_descriptor;
  monitor_read_fd = no_descriptor;
  delivered_request_read_fd = no_descriptor;
}

-- A record that is passed by reference and must be there to be written or passed on.
unfoldable pub init_handles : ℕ → Option HostHandles → M HostHandles
init_handles flags none w = fault
init_handles flags (some _) w = pure (empty_handles flags) w

module _ (host : Host) (library : Ptr) where
  unfoldable pub create_native : Ptr → Ptr → ℤ → ℤ → Ptr → Option Ptr → M (Status × Option Ptr)
  create_native system node_id strict capacity options out =
      let out' = stored out none in
      if is_null library || is_null out' then pure (invalid_arg, out') else do
        r ←
            call_slot host library Slot.create_native
              (Call.create_native (runtime_config system node_id strict capacity) options out')
        pure (r.0, stored out' r.1)

  unfoldable pub create : Ptr → Ptr → ℤ → ℤ → M Ptr
  create system_name node_id strict_no_drop queue_capacity =
      if is_null library
      then pure none
      else call_slot host library Slot.runtime_create
          (Call.runtime_create (runtime_config system_name node_id strict_no_drop queue_capacity))

  unfoldable pub destroy : Ptr → M (Unit {0})
  destroy runtime =
      if is_null library || is_null runtime
      then pure tt
      else call_slot host library Slot.runtime_destroy (Call.runtime_destroy runtime)

  unfoldable pub apply_network : Ptr → ℕ → Ptr → ℕ → Ptr → ℕ → M Status
  apply_network runtime mode bind_host bind_port advertise_host advertise_port =
      if is_null library || is_null runtime
      then pure invalid_arg
      else call_slot host library Slot.apply_network_options (
          Call.apply_network_options runtime
            (network mode bind_host bind_port advertise_host advertise_port))

  unfoldable pub get_host_handles : Ptr → ℕ → Option HostHandles → M (Status × Option HostHandles)
  unfolding init_handles
  get_host_handles runtime flags out =
      if is_null library || is_null runtime || is_null out then pure (invalid_arg, out) else do
        handles ← init_handles flags out
        r ← call_slot host library Slot.get_host_handles (Call.get_host_handles runtime handles)
        pure (r.0, some r.1)

  unfoldable pub host_handles_close : Option HostHandles → M (Option HostHandles)
  unfolding deref
  host_handles_close handles =
      if not (is_null library) && not (is_null handles)
      then (do
        h ← deref handles
        closed ← call_slot host library Slot.close_handles (Call.close_handles h)
        pure (some closed))
      else pure handles

  unfoldable pub start : Ptr → M Status
  start runtime =
      if is_null library || is_null runtime
      then pure invalid_arg
      else call_slot host library Slot.runtime_start (Call.runtime_start runtime)

  unfoldable pub stop : Ptr → M Status
  stop runtime =
      if is_null library || is_null runtime
      then pure invalid_arg
      else call_slot host library Slot.runtime_stop (Call.runtime_stop runtime)

  unfoldable pub apply_snapshot : Ptr → ℕ → Ptr → ℕ → M Status
  apply_snapshot runtime generation routes count =
      if is_null library
      then pure invalid_arg
      else call_slot host library Slot.apply_snapshot (
          Call.apply_snapshot runtime
            (record { generation = generation; routes = routes; route_count = count }))

  unfoldable pub submit_envelope : Ptr → Ptr → ℕ → M Status
  submit_envelope runtime buf len =
      if is_null library || is_null runtime
      then pure invalid_arg
      else call_slot host library Slot.submit_envelope (Call.submit_envelope runtime buf len)
