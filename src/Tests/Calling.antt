-- ===== src/Tests/Calling.antt =====
-- The bridge functions at concrete inputs.
use coakka_runtime_swift.Prelude.{
  ℕ, ◌^◌, true, false, none, some, List, [], ◌∷◌, ◌≡◌, ◌↔◌, refl, replicate, pos, bit,
}
use coakka_runtime_swift.Status.{Status, ok}
use coakka_runtime_swift.Core.Records.{SwiftRuntimeInfo, SwiftConfigView, RuntimeInfo, ConfigView}
use coakka_runtime_swift.Core.Call.{Call}
use coakka_runtime_swift.Machine.Heap.{World, logged}
use coakka_runtime_swift.Machine.Effects.{returns}
use coakka_runtime_swift.Loader.Library.{is_ok}
use coakka_runtime_swift.Bridge.Lifecycle.{network_node, network_fields}
use coakka_runtime_swift.Bridge.Lifecycle.Network.{
  documented_fields, network_fields_swapped, network_fields_documented,
}
use coakka_runtime_swift.Bridge.Inspect.{
  info_request, swift_info, get_info, config_request, swift_config, get_config,
}
use coakka_runtime_swift.Bridge.Inspect.Copies.{
  IsInfoCopy, IsConfigCopy, get_info-copied, get_config-copied,
}
use coakka_runtime_swift.Bridge.Prepared.{IsClearedInfo, IsClearedConfig}
use coakka_runtime_swift.Bridge.Feature.{feature_available}
use coakka_runtime_swift.Bridge.Feature.Answers.{feature_available-bit}
use coakka_runtime_swift.Bridge.Spec.{perform}
use coakka_runtime_swift.Bridge.Lifecycle
use coakka_runtime_swift.Bridge.Inspect
use coakka_runtime_swift.Bridge.Client
use coakka_runtime_swift.Bridge.File
use coakka_runtime_swift.Bridge.Stream
use coakka_runtime_swift.Bridge.Inspect.Refines.{inspect-perform}
use coakka_runtime_swift.Bridge.Client.Refines.{client-perform}
use coakka_runtime_swift.Bridge.Safety.{Safe}
use coakka_runtime_swift.Bridge.Session.{
  Request, lifecycle, client, file, stream, serve, session, lifetime,
}
use coakka_runtime_swift.Bridge.Session.Restores.{Calls, serve-Safe, session-Calls}
use coakka_runtime_swift.Bridge.Session.Lifetime.{Restored, lifetime-Restored}
use coakka_runtime_swift.Bridge.Session.Absent.{absent, serve-absent}
use coakka_runtime_swift.Tests.{
  demo, start_world, start_world-IsFresh, open_world, open_world-IsOpen, demo-Complete, some_info,
}

abbrev digest : List ℕ
digest = replicate 32 7

-- A node is configured, started, asked for its file lane, and stopped.
abbrev requests : List Request
requests =
    lifecycle (Lifecycle.Ops.apply_network (some 64) 3 (some 8) 9000 none 0)
    ∷ lifecycle (Lifecycle.Ops.start (some 64))
    ∷ file (File.Ops.available (some 9))
    ∷ file (File.Ops.prepare_receive (some 72) (some 80) none (some 88) 4096 (some digest))
    ∷ stream (Stream.Ops.start (some 72))
    ∷ client (Client.Ops.ask_client_begin (some 72) (some 80) 12 (some none))
    ∷ lifecycle (Lifecycle.Ops.stop (some 64))
    ∷ []

abbrev info_out : SwiftRuntimeInfo
info_out = swift_info info_request

abbrev config_out : SwiftConfigView
config_out = swift_config config_request

lifetime-Restored_example :
    (status : Status) × (w' : World) × (lifetime demo "libcoakka.so" none 0 requests start_world
      ≡ returns status w')
    × Restored demo 7 start_world status w'
lifetime-Restored_example =
    lifetime-Restored demo "libcoakka.so" none 0 requests start_world start_world-IsFresh

serve-Safe_example :
    Safe demo (some 7) (serve demo (some 16) (file (File.Ops.available (some 9)))) open_world
serve-Safe_example =
    serve-Safe demo (some 7) 16 demo-Complete (file (File.Ops.available (some 9))) open_world
      open_world-IsOpen

session-Calls_example :
    (w' : World) × (session demo (some 16) requests open_world ≡ returns tt w')
    × Calls demo (some 7) 7 open_world w'
session-Calls_example =
    session-Calls demo (some 7) 16 demo-Complete requests open_world open_world-IsOpen

serve-absent_example :
    serve demo none
      (lifecycle (Lifecycle.Ops.create_native none none (pos 1) (pos 8) none (some (some 5))))
      start_world
    ≡ returns
        (absent
          (lifecycle (Lifecycle.Ops.create_native none none (pos 1) (pos 8) none (some (some 5)))))
        start_world
serve-absent_example =
    serve-absent demo
      (lifecycle (Lifecycle.Ops.create_native none none (pos 1) (pos 8) none (some (some 5))))
      start_world

inspect-perform_example :
    Inspect.Ops.run demo (some 16) (Inspect.Ops.get_info (some info_out)) open_world
    ≡ perform demo (some 7) (Inspect.Refines.spec (Inspect.Ops.get_info (some info_out))) open_world
inspect-perform_example =
    inspect-perform demo (some 7) 16 open_world open_world-IsOpen
      (Inspect.Ops.get_info (some info_out))

client-perform_example :
    Client.Ops.run demo
      (some 16)
      (Client.Ops.ask_client_begin (some 72) (some 80) 12 (some none))
      open_world
    ≡ perform demo
        (some 7)
        (Client.Refines.spec (Client.Ops.ask_client_begin (some 72) (some 80) 12 (some none)))
        open_world
client-perform_example =
    client-perform demo (some 7) 16 open_world open_world-IsOpen
      (Client.Ops.ask_client_begin (some 72) (some 80) 12 (some none))

feature_available-bit_example :
    feature_available demo (some 16) (2 ^ 23) (some 9) open_world
    ≡ returns (ok, some (bit 23 0x800001)) (logged 100 (Call.get_info info_request) open_world)
unfolding is_ok
feature_available-bit_example =
    feature_available-bit demo (some 7) 16 open_world 23 9 100 open_world-IsOpen refl

get_info-copied_example :
    (request : RuntimeInfo) × (after : SwiftRuntimeInfo) × IsClearedInfo request
    × (get_info demo (some 16) (some info_out) open_world
        ≡ returns (ok, some after) (logged 100 (Call.get_info request) open_world))
    × (true ≡ true → IsInfoCopy some_info after)
    × (true ≡ false → after ≡ info_out)
unfolding is_ok
get_info-copied_example =
    get_info-copied demo (some 7) 16 open_world open_world-IsOpen 100 info_out refl

get_config-copied_example :
    (request : ConfigView) × (after : SwiftConfigView) × IsClearedConfig request
    × (get_config demo (some 16) (some 64) (some config_out) open_world
        ≡ returns (ok, some after) (logged 100 (Call.get_config (some 64) request) open_world))
    × (true ≡ true → IsConfigCopy config_request after)
    × (true ≡ false → after ≡ config_out)
unfolding is_ok
get_config-copied_example =
    get_config-copied demo (some 7) 16 open_world open_world-IsOpen 100 64 config_out refl

-- OUTBOUND_ONLY with a port to bind and no host to advertise.
network_fields_swapped_example :
    network_fields 2 none 9000 none 0 ≡ documented_fields false false true false
network_fields_swapped_example = network_fields_swapped 2 none 9000 none 0

network_fields_documented_example :
    (network_fields 2 none 9000 none 0 ≡ documented_fields false true false false) ↔ (true ≡ false)
network_fields_documented_example = network_fields_documented 2 none 9000 none 0 (λ e. cc)
