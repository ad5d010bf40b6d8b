-- ===== src/Tests/Starting.antt =====
-- A start over the open library, and the session that it makes.
use coakka_runtime_swift.Prelude.{Bool, true, false, none, some, List, [], ◌∷◌, ◌≡◌, refl, pos}
use coakka_runtime_swift.Core.Call.{Call, Reply}
use coakka_runtime_swift.Machine.Heap.{Host, library}
use coakka_runtime_swift.Machine.Effects.{Outcome, returns, fault, load, invoke}
use coakka_runtime_swift.Machine.Reasoning.{update_at}
use coakka_runtime_swift.Loader.Symbols.{bound}
use coakka_runtime_swift.Loader.Library.{is_ok}
use coakka_runtime_swift.Bridge.Lifecycle.{init_handles}
use coakka_runtime_swift.Bridge.Lifecycle
use coakka_runtime_swift.Bridge.Client
use coakka_runtime_swift.Bridge.Inspect
use coakka_runtime_swift.Bridge.Access.{call_slot}
use coakka_runtime_swift.Bridge.Spec.{IsOpen}
use coakka_runtime_swift.Bridge.Safety.{Complete}
use coakka_runtime_swift.Swift.Errors.{Result, value, thrown}
use coakka_runtime_swift.Swift.Calls.{Runs}
use coakka_runtime_swift.Swift.Session.{Session}
use coakka_runtime_swift.Swift.Session.System.{
  Action, begin_ask, destroy_ticket, end_ask, run_reader, submit_reply, call_close, join_close,
}
use coakka_runtime_swift.Swift.Startup.{
  StartSpec, start, create, with_runtime, attempt, apply_security, apply_routes, after_routes,
  after_handles, after_start, with_client, finish_reader, finish,
}
use coakka_runtime_swift.Swift.Startup.Balanced.{StartOutcome, start-Balanced}
use coakka_runtime_swift.Swift.Lifetime.{lifetime, Lived, lifetime-Lived}
use coakka_runtime_swift.Tests.{demo, demo_reply, open_world}

-- A Core library of the expected ABI version.
abbrev starting_reply : (c : Call) → Reply c
starting_reply Call.get_abi_version = 1
starting_reply c = demo_reply c

abbrev starting : Host
starting = record demo { native = λ address c log. starting_reply c }

starting-IsOpen : IsOpen starting (some 7) 16 open_world
starting-IsOpen = update_at (λ q. none) 16 (some (library (bound starting (some 7))))

starting-Complete : Complete starting (some 7)
starting-Complete s e = cc

abbrev start_spec : StartSpec
start_spec = record {
  system_name = some 200;
  node_id = some 208;
  strict_no_drop = true;
  queue_capacity = pos 0;
  options = some 216;
  network_mode = 0;
  bind_host = none;
  bind_port = 0;
  advertise_host = none;
  advertise_port = 0;
  security = none;
  generation = 1;
  routes = some 224;
  route_count = 1;
  handles_address = 232;
}

-- An ask, a request that is answered, and a close.
abbrev actions : List Action
actions =
    begin_ask 96
    ∷ run_reader
    ∷ submit_reply 240
    ∷ run_reader
    ∷ call_close false false
    ∷ run_reader
    ∷ run_reader
    ∷ run_reader
    ∷ join_close
    ∷ destroy_ticket 0
    ∷ end_ask
    ∷ []

abbrev is_started : Outcome (Result Session) → Bool
is_started (returns (value s) w) = true
is_started (returns (thrown e) w) = false
is_started fault = false

-- It is the session that is returned here.
start_returns : is_started (start starting (some 16) start_spec open_world) ≡ true
unfolding start create with_runtime attempt apply_security apply_routes after_routes after_handles
    after_start with_client finish_reader finish Inspect.get_abi_version Lifecycle.create_native
    Lifecycle.apply_network Lifecycle.apply_snapshot Lifecycle.start Lifecycle.get_host_handles
    init_handles Client.ask_client_create Client.reader_create call_slot load invoke is_ok
start_returns = refl

start-Balanced_example :
    Runs
      (start starting (some 16) start_spec)
      open_world
      (λ r cs. StartOutcome starting (some 16) start_spec r cs)
start-Balanced_example =
    start-Balanced starting (some 7) 16 start_spec open_world starting-Complete starting-IsOpen

lifetime-Lived_example :
    Runs
      (lifetime starting (some 16) start_spec actions)
      open_world
      (λ r cs. Lived starting 16 start_spec r cs)
lifetime-Lived_example =
    lifetime-Lived starting (some 7) 16 start_spec actions open_world starting-Complete
      starting-IsOpen
