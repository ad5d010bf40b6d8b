-- ===== src/Machine/Heap.antt =====
-- The state: live heap blocks, held loader handles, and the log of calls into the Core library.
use coakka_runtime_swift.Prelude.{ℕ, String, Bool, Option, none, List, ◌∷◌, ◌==◌, if◌then◌else◌}
use coakka_runtime_swift.Core.Records.{Ptr}
use coakka_runtime_swift.Core.Slot.{Slot}
use coakka_runtime_swift.Core.Call.{Call, Reply}

-- runtime_library_t: the loader handle and the function pointers.
pub record Library : Type 0 where
  pub handle : Ptr
  pub slot : Slot → Ptr

-- calloc leaves every pointer NULL.
abbrev pub zeroed : Library
zeroed = record { handle = none; slot = λ s. none }

-- What the bridge allocates: a library, or the wide copy of a path (so many wide characters).
pub data Block : Type 0 where
  library : Library → Block
  wide_path : ℕ → Block

-- A call that was made: the address that was called, and the arguments.
pub record Event : Type 0 where
  pub address : ℕ
  pub call : Call

-- `modules` holds a loader handle once for each open that was not closed; `log` has the latest
-- event first. Addresses from `next` on were never allocated.
pub record World : Type 0 where
  pub heap : ℕ → Option Block
  pub next : ℕ
  pub modules : List ℕ
  pub log : List Event

abbrev pub update : (ℕ → Option Block) → ℕ → Option Block → ℕ → Option Block
update heap p b q = if p == q then b else heap q

-- What the platform and the Core library do. A loader resolves a name of one loaded module to one
-- address; all else may depend on everything that happened.
pub record Host : Type 0 where
  pub is_windows : Bool
  -- calloc does not fail
  pub memory : World → Bool
  -- dlopen, LoadLibraryW
  pub load_module : String → World → Ptr
  -- the two calls of MultiByteToWideChar: the length, 0 on failure, and the success of the second
  pub wide_length : String → ℕ
  pub widen : String → Bool
  -- dlsym, GetProcAddress
  pub find_symbol : Ptr → String → Ptr
  -- dlerror
  pub loader_error : World → Option (List ℕ)
  -- the function at an address
  pub native : ℕ → (c : Call) → List Event → Reply c

-- The state after a call.
abbrev pub logged : ℕ → Call → World → World
logged address call w = record w { log = record { address = address; call = call } ∷ w.log }
