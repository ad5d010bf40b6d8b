-- ===== src/Bridge/Access.antt =====
-- How the bridge functions reach the Core library: through a slot of the library, or by a lookup at
-- the time of the call (CHECKED_CORE_LOADER); and how they prepare an output record.
use coakka_runtime_swift.Prelude.{String, Option, none, some}
use coakka_runtime_swift.Abi.Layout.{CType}
use coakka_runtime_swift.Core.Records.{Ptr, Output, cleared}
use coakka_runtime_swift.Core.Slot.{Slot}
use coakka_runtime_swift.Core.Call.{Call, Reply}
use coakka_runtime_swift.Machine.Heap.{Host}
use coakka_runtime_swift.Machine.Effects.{M, ◌>>=◌, pure, fault, load, invoke}
use coakka_runtime_swift.Loader.Platform.{platform_library_symbol}

-- memset(out, 0, sizeof(*out)); out->struct_size = sizeof(*out);
-- A write through NULL is a fault.
unfoldable pub clear : CType → Option Output → M Output
clear t none w = fault
clear t (some _) w = pure (cleared t) w

-- if (out) { memset(out, 0, sizeof(*out)); out->struct_size = sizeof(*out); }
unfoldable pub clear_if : CType → Option Output → Option Output
clear_if t none = none
clear_if t (some _) = some (cleared t)

-- The content behind a pointer that is passed on; NULL is a fault.
unfoldable pub deref : {A : Type 0} → Option A → M A
deref none w = fault
deref (some a) w = pure a w

-- lib->slot, without a call
unfoldable pub slot_of : Ptr → Slot → M Ptr
slot_of none s w = fault
slot_of (some p) s w = (do l ← load p; pure (l.slot s)) w

module _ (host : Host) where
  -- lib->slot(…)
  unfoldable pub call_slot : Ptr → Slot → (c : Call) → M (Reply c)
  call_slot none s c w = fault
  call_slot (some p) s c w = (do l ← load p; invoke host (l.slot s) c) w

  -- load_name(lib)
  unfoldable pub load_name : Ptr → String → M Ptr
  unfolding platform_library_symbol
  load_name none name w = fault
  load_name (some p) name w = (do l ← load p; pure (platform_library_symbol host l.handle name)) w

  -- lib ? load_name(lib) : NULL
  unfoldable pub lookup : Ptr → String → M Ptr
  lookup none name w = pure none w
  lookup (some p) name w = load_name (some p) name w

-- A text that a function returns: a literal of the bridge, or a pointer from the Core library.
pub data CText : Type 0 where
  static_text : String → CText
  native_text : Ptr → CText
