-- ===== src/Tests/Several.antt =====
-- Clients with several libraries at concrete inputs.
use coakka_runtime_swift.Prelude.{ℕ, none, some, List, [], ◌∷◌, ◌≡◌, refl, arith}
use coakka_runtime_swift.Core.Slot.{Slot-discrete, symbol_name, load_order}
use coakka_runtime_swift.Machine.Heap.{World}
use coakka_runtime_swift.Machine.Effects.{
  returns, release, load, store, free, unload, calloc, load_module,
}
use coakka_runtime_swift.Loader.Platform.{
  platform_library_open, platform_library_symbol, platform_library_close,
}
use coakka_runtime_swift.Loader.Library.{
  is_ok, set_slot, load_symbol, load_slot, load_symbols, publish, open_loaded, open_allocated,
  library_open, library_close,
}
use coakka_runtime_swift.Bridge.File
use coakka_runtime_swift.Bridge.Session.{file, serve}
use coakka_runtime_swift.Bridge.Session.Statuses.{answer_status, serve-Forwarding}
use coakka_runtime_swift.Bridge.Forwarded.{Forwarding}
use coakka_runtime_swift.Bridge.Prepared.{Preparing}
use coakka_runtime_swift.Bridge.Session.Records.{serve-Preparing}
use coakka_runtime_swift.Bridge.Clients.{
  Command, open_library, request, close_library, step, run_all,
}
use coakka_runtime_swift.Bridge.Clients.Picked.{Owned, addresses}
use coakka_runtime_swift.Bridge.Clients.Held.{Holds}
use coakka_runtime_swift.Bridge.Clients.Steps.{run_all-Holds}
use coakka_runtime_swift.Bridge.Clients.Released.{world_of, run_all-returned}
use coakka_runtime_swift.Tests.{
  demo, start_world, start_world-IsFresh, open_world, open_world-IsOpen, demo-Complete, some_output,
}

start_world-Holds : Holds demo start_world []
start_world-Holds = record {
  fresh = start_world-IsFresh;
  live = tt;
  distinct = λ q. omega arith;
  exact = λ q h. refl;
  held = λ h. refl;
}

-- Two libraries, a call through each and through NULL, and closes in the order of the opens.
abbrev commands : List Command
commands =
    open_library "libcoakka-a.so" none 0
    ∷ request 0 (file (File.Ops.available (some 9)))
    ∷ open_library "libcoakka-b.so" none 0
    ∷ close_library 1
    ∷ request 0 (file (File.Ops.start (some 72)))
    ∷ request 1 (file (File.Ops.start (some 72)))
    ∷ close_library 0
    ∷ close_library 0
    ∷ []

run_all-Holds_example :
    (hs : List Owned) × (w' : World) × (run_all demo commands [] start_world
      ≡ returns (addresses hs) w')
    × Holds demo w' hs
run_all-Holds_example = run_all-Holds demo commands [] start_world start_world-Holds

abbrev open_and_close : List Command
open_and_close = open_library "libcoakka-a.so" none 0 ∷ close_library 0 ∷ []

abbrev end_world : World
end_world = world_of start_world (run_all demo open_and_close [] start_world)

ends : run_all demo open_and_close [] start_world ≡ returns [] end_world
unfolding run_all step library_open open_allocated open_loaded load_symbols load_slot load_symbol
    publish library_close platform_library_open platform_library_symbol platform_library_close
    load_module calloc load store free unload release is_ok set_slot Slot-discrete symbol_name
    load_order
ends = refl

run_all-returned_example : ((q : ℕ) → end_world.heap q ≡ none) × (end_world.modules ≡ [])
run_all-returned_example =
    run_all-returned demo open_and_close [] start_world end_world start_world-Holds ends

serve-Forwarding_example :
    Forwarding demo
      (answer_status (file (File.Ops.start (some 72))))
      (serve demo (some 16) (file (File.Ops.start (some 72))))
      open_world
serve-Forwarding_example =
    serve-Forwarding demo (some 7) 16 open_world (file (File.Ops.start (some 72))) open_world-IsOpen
      demo-Complete

serve-Preparing_example :
    Preparing
      (serve demo (some 16) (file (File.Ops.get_transfer (some 72) (some 80) 1 (some some_output))))
      open_world
serve-Preparing_example =
    serve-Preparing demo (some 7) 16 open_world
      (file (File.Ops.get_transfer (some 72) (some 80) 1 (some some_output))) open_world-IsOpen
      demo-Complete
