-- ===== src/Tests.antt =====
-- A platform and a Core library to run the bridge with: every name resolves, every call succeeds.
pub mod Loading
pub mod Calling
pub mod Several
pub mod Sessions
pub mod Owners
pub mod Starting
use coakka_runtime_swift.Prelude.{
  ℕ, true, false, none, some, List, [], pos, negsuc, ◌≡◌, refl, replicate, ◌∷◌, ◌≢◌,
}
use coakka_runtime_swift.Status.{Status, ok}
use coakka_runtime_swift.Core.Records.{Ptr, Output, RuntimeInfo, ConfigView, HostHandles}
use coakka_runtime_swift.Core.Slot.{Slot, symbol_name}
use coakka_runtime_swift.Core.Call.{Call, Reply}
use coakka_runtime_swift.Machine.Heap.{World, Host, library, update, Event}
use coakka_runtime_swift.Machine.Reasoning.{update_at}
use coakka_runtime_swift.Loader.Acquire.{IsFresh}
use coakka_runtime_swift.Loader.Symbols.{bound}
use coakka_runtime_swift.Bridge.Inspect.{info_request, config_request}
use coakka_runtime_swift.Bridge.Lifecycle.{empty_handles}
use coakka_runtime_swift.Bridge.Spec.{IsOpen}
use coakka_runtime_swift.Bridge.Safety.{Complete}

abbrev pub some_output : Output
some_output = record { struct_size = 16; body = replicate 8 1 }

-- Bits 0 and 23 of the feature flags are set.
abbrev pub some_info : RuntimeInfo
some_info = record info_request { abi_version = 2; feature_flags = 0x800001 }

abbrev pub demo_reply : (c : Call) → Reply c
demo_reply (Call.create_native _ _ _) = (ok, some 64)
demo_reply (Call.get_startup _ _) = (ok, some_output)
demo_reply (Call.get_delivery _ _) = (ok, some_output)
demo_reply (Call.close_handles _) = empty_handles 0
demo_reply (Call.reader_create _ _ _) = (ok, some 64)
demo_reply (Call.reader_read _ _ _) = (ok, some 64)
demo_reply (Call.owned_data _) = some 64
demo_reply (Call.owned_size _) = 5
demo_reply (Call.owned_release _) = tt
demo_reply (Call.reader_destroy _) = tt
demo_reply (Call.ticket_cancel _) = tt
demo_reply (Call.copy_payload _ _ _ _ _) = (ok, some 64, 5)
demo_reply (Call.copy_dispatch _ _ _ _ _ _ _) = (ok, some 64, 5, some 64, 5, 5)
demo_reply Call.get_abi_version = 5
demo_reply (Call.get_info _) = (ok, some_info)
demo_reply (Call.runtime_create _) = some 64
demo_reply (Call.runtime_destroy _) = tt
demo_reply (Call.apply_network_options _ _) = ok
demo_reply (Call.get_host_handles _ _) = (ok, empty_handles 0)
demo_reply (Call.runtime_start _) = ok
demo_reply (Call.runtime_stop _) = ok
demo_reply (Call.apply_snapshot _ _) = ok
demo_reply (Call.submit_envelope _ _ _) = ok
demo_reply (Call.get_config _ _) = (ok, config_request)
demo_reply (Call.get_health _ _) = (ok, some_output)
demo_reply (Call.get_stats _ _) = (ok, some_output)
demo_reply (Call.get_capabilities _) = (ok, some_output)
demo_reply (Call.apply_tcp_connection_options _ _ _) = (ok, some_output)
demo_reply (Call.get_tcp_connection_config _ _) = (ok, some_output)
demo_reply (Call.apply_tcp_security_options _ _ _) = (ok, some_output)
demo_reply (Call.get_tcp_security_info _ _) = (ok, some_output)
demo_reply (Call.core_reason_name _) = some 64
demo_reply (Call.ask_client_create _ _) = some 64
demo_reply (Call.ask_client_destroy _) = tt
demo_reply (Call.ask_client_begin _ _ _ _) = (ok, some 64)
demo_reply (Call.ask_ticket_await _ _ _ _ _) = (ok, 5, some 64, 5)
demo_reply (Call.ask_ticket_message_id _) = some 64
demo_reply (Call.ask_ticket_destroy _) = tt
demo_reply (Call.build_raw_request _ _ _) = (ok, some 64, 5)
demo_reply (Call.build_raw_reply _ _ _) = (ok, some 64, 5)
demo_reply (Call.client_bytes_release _) = tt
demo_reply (Call.file_create _ _) = (ok, some 64)
demo_reply (Call.file_create_owned _ _) = (ok, some 64)
demo_reply (Call.file_destroy _) = tt
demo_reply (Call.file_simple _) = ok
demo_reply (Call.file_port _ _) = (ok, 5)
demo_reply (Call.file_prepare _ _) = ok
demo_reply (Call.file_prepare_grant _ _ _) = (ok, some_output)
demo_reply (Call.file_submit _ _) = ok
demo_reply (Call.file_get _ _ _ _) = (ok, some_output)
demo_reply (Call.file_wait _ _ _ _ _ _) = (ok, some_output)
demo_reply (Call.file_control _ _ _) = ok
demo_reply (Call.file_stats _ _) = (ok, some_output)
demo_reply (Call.file_sha _ _ _) = (ok, (1 ∷ []), 5)
demo_reply (Call.stream_create _ _) = (ok, some 64)
demo_reply (Call.stream_create_owned _ _) = (ok, some 64)
demo_reply (Call.stream_destroy _) = tt
demo_reply (Call.stream_simple _) = ok
demo_reply (Call.stream_port _ _) = (ok, 5)
demo_reply (Call.stream_publish _ _) = ok
demo_reply (Call.stream_publish_grant _ _ _) = (ok, some_output)
demo_reply (Call.stream_subscribe _ _) = ok
demo_reply (Call.stream_get _ _ _ _) = (ok, some_output)
demo_reply (Call.stream_wait _ _ _ _ _ _) = (ok, some_output)
demo_reply (Call.stream_pressure _ _ _ _) = (ok, some_output)
demo_reply (Call.stream_wait_pressure _ _ _ _ _ _) = (ok, some_output)
demo_reply (Call.stream_control _ _ _) = ok
demo_reply (Call.stream_stats _ _) = (ok, some_output)

abbrev pub demo : Host
demo = record {
  is_windows = false;
  memory = λ w. true;
  load_module = λ path w. some 7;
  wide_length = λ path. 9;
  widen = λ path. true;
  find_symbol = λ handle name. some 100;
  loader_error = λ w. none;
  native = λ address c log. demo_reply c;
}

-- Nothing is allocated, loaded or called.
abbrev pub start_world : World
start_world = record { heap = λ q. none; next = 16; modules = []; log = [] }

pub start_world-IsFresh : IsFresh start_world
start_world-IsFresh = record { fresh = λ q h. refl }

-- A library is open at address 16.
abbrev pub open_world : World
open_world = record {
  heap = update (λ q. none) 16 (some (library (bound demo (some 7))));
  next = 17;
  modules = 7 ∷ [];
  log = [];
}

pub open_world-IsOpen : IsOpen demo (some 7) 16 open_world
open_world-IsOpen = update_at (λ q. none) 16 (some (library (bound demo (some 7))))

pub demo-Complete : Complete demo (some 7)
demo-Complete s e = cc
