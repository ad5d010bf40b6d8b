-- ===== src/Bridge/Inspect/Copies.antt =====
-- coakka_swift_runtime_get_info and coakka_swift_runtime_get_config, which copy members out.
use coakka_runtime_swift.Prelude.{
  ℕ, Option, some, ◌≡◌, refl, ◌∙◌, Bool-cases, inl, inr, if◌then◌else◌, Bool, true, false,
}
use coakka_runtime_swift.Status.{Status, ok}
use coakka_runtime_swift.Core.Records.{
  Ptr, RuntimeInfo, SwiftRuntimeInfo, ConfigView, SwiftConfigView,
}
use coakka_runtime_swift.Core.Call.{Call, Reply}
use coakka_runtime_swift.Machine.Heap.{World, Host, logged}
use coakka_runtime_swift.Machine.Effects.{returns, invoke}
use coakka_runtime_swift.Loader.Library.{is_ok, is_ok-ok}
use coakka_runtime_swift.Bridge.Spec.{IsOpen}
use coakka_runtime_swift.Bridge.Inspect
use coakka_runtime_swift.Bridge.Inspect.{
  info_request, swift_info, get_info, config_request, swift_config, get_config,
}
use coakka_runtime_swift.Abi.Layout.{size}
use coakka_runtime_swift.Abi.Runtime.{swift_runtime_info, swift_runtime_config_view}
use coakka_runtime_swift.Bridge.Prepared.{IsClearedInfo, IsClearedConfig}
use coakka_runtime_swift.Bridge.Inspect.Prepared.{
  info_request-IsClearedInfo, config_request-IsClearedConfig,
}
use coakka_runtime_swift.Bridge.Inspect.Refines.{inspect-perform}

-- The status, and the copy where it is OK or else the output as it was.
abbrev copied : {A : Type 0} → Status → A → A → Status × Option A
copied status copy out = (status, some (if is_ok status then copy else out))

copied_lem :
    {A : Type 0} (status : Status) (copy out : A)
    → ◌≡◌ {A = Status × Option A}
        (if is_ok status then (ok, some copy) else (status, some out))
        (copied status copy out)
copied_lem status copy out = elim (Bool-cases (is_ok status)) [
  | inl good ↦ rw (good, is_ok-ok status good) refl
  | inr bad ↦ rw bad refl
]

-- The members of coakka_swift_runtime_info_t hold those of coakka_v2_runtime_info_t.
pub record IsInfoCopy (native : RuntimeInfo) (out : SwiftRuntimeInfo) : Type 0 where
  pub struct_size : out.struct_size ≡ size swift_runtime_info
  pub abi_version : out.abi_version ≡ native.abi_version
  pub feature_flags : out.feature_flags ≡ native.feature_flags
  pub runtime_version : out.runtime_version ≡ native.runtime_version
  pub git_commit : out.git_commit ≡ native.git_commit
  pub backend : out.backend ≡ native.southbound_backend

-- The members of coakka_swift_runtime_config_view_t hold those of coakka_v2_runtime_config_view_t.
pub record IsConfigCopy (native : ConfigView) (out : SwiftConfigView) : Type 0 where
  pub struct_size : out.struct_size ≡ size swift_runtime_config_view
  pub system_name : out.system_name ≡ native.system_name
  pub node_id : out.node_id ≡ native.node_id
  pub strict_no_drop : out.strict_no_drop ≡ native.strict_no_drop
  pub queue_capacity : out.queue_capacity ≡ native.queue_capacity
  pub runtime_state : out.runtime_state ≡ native.runtime_state
  pub snapshot_present : out.snapshot_present ≡ native.snapshot_present
  pub applied_generation : out.applied_generation ≡ native.applied_generation
  pub route_count : out.route_count ≡ native.route_count

swift_info-IsInfoCopy : (native : RuntimeInfo) → IsInfoCopy native (swift_info native)
unfolding swift_info
swift_info-IsInfoCopy native = record {
  struct_size = refl;
  abi_version = refl;
  feature_flags = refl;
  runtime_version = refl;
  git_commit = refl;
  backend = refl;
}

swift_config-IsConfigCopy : (native : ConfigView) → IsConfigCopy native (swift_config native)
unfolding swift_config
swift_config-IsConfigCopy native = record {
  struct_size = refl;
  system_name = refl;
  node_id = refl;
  strict_no_drop = refl;
  queue_capacity = refl;
  runtime_state = refl;
  snapshot_present = refl;
  applied_generation = refl;
  route_count = refl;
}

chosen :
    {A : Type 0} (P : A → Type 0) (b : Bool) (copy out : A)
    → P copy
    → (b ≡ true → P (if b then copy else out)) × (b ≡ false → (if b then copy else out) ≡ out)
chosen P true copy out h = (λ _. h, λ e. absurd (cc))
chosen P false copy out h = (λ e. absurd (cc), λ _. refl)

module _ (host : Host) (handle : Ptr) (p : ℕ) (w : World) (open_p : IsOpen host handle p w)
    (address : ℕ) where
  abbrev reply : (c : Call) → Reply c
  reply c = host.native address c w.log

  get_info_copy :
      (out : SwiftRuntimeInfo)
      → host.find_symbol handle "coakka_v2_runtime_get_info" ≡ some address
      → get_info host (some p) (some out) w ≡ (
          let r : Status × RuntimeInfo = host.native address (Call.get_info info_request) w.log in
          returns (copied r.0 (swift_info r.1) out) (logged address (Call.get_info info_request) w))
  unfolding invoke Inspect.Ops.run
  get_info_copy out found =
      inspect-perform host handle p w open_p (Inspect.Ops.get_info (some out))
      ∙ rw found (λ i.
        returns
          (copied_lem (reply (Call.get_info info_request)).0
            (swift_info (reply (Call.get_info info_request)).1) out i)
          (logged address (Call.get_info info_request) w))

  get_config_copy :
      (runtime : ℕ) (out : SwiftConfigView)
      → host.find_symbol handle "coakka_v2_runtime_get_config" ≡ some address
      → get_config host (some p) (some runtime) (some out) w ≡ (
          let r : Status × ConfigView =
            host.native address (Call.get_config (some runtime) config_request) w.log in
          returns
            (copied r.0 (swift_config r.1) out)
            (logged address (Call.get_config (some runtime) config_request) w))
  unfolding invoke Inspect.Ops.run
  get_config_copy runtime out found =
      inspect-perform host handle p w open_p (Inspect.Ops.get_config (some runtime) (some out))
      ∙ rw found (λ i.
        returns
          (copied_lem (reply (Call.get_config (some runtime) config_request)).0
            (swift_config (reply (Call.get_config (some runtime) config_request)).1) out i)
          (logged address (Call.get_config (some runtime) config_request) w))

  -- With an output to write to, get_info makes one call, with a record that is zero but for its own
  -- size, and returns the status of that call. Where that is OK, the output holds its own size, the
  -- ABI version, the feature flags, the runtime version and the git commit that the Core library
  -- wrote, and the southbound backend as its backend; where it is not, the output is as it was.
  pub get_info-copied :
      (out : SwiftRuntimeInfo)
      → host.find_symbol handle "coakka_v2_runtime_get_info" ≡ some address
      → (request : RuntimeInfo) × (after : SwiftRuntimeInfo) × IsClearedInfo request
        × (get_info host (some p) (some out) w
            ≡ returns
                ((reply (Call.get_info request)).0, some after)
                (logged address (Call.get_info request) w))
        × (is_ok (reply (Call.get_info request)).0 ≡ true
            → IsInfoCopy (reply (Call.get_info request)).1 after)
        × (is_ok (reply (Call.get_info request)).0 ≡ false → after ≡ out)
  get_info-copied out found =
      let r : Status × RuntimeInfo = reply (Call.get_info info_request) in
      let both =
        chosen (IsInfoCopy r.1) (is_ok r.0) (swift_info r.1) out (swift_info-IsInfoCopy r.1) in
      (
        info_request,
        if is_ok r.0 then swift_info r.1 else out,
        info_request-IsClearedInfo,
        get_info_copy out found,
        both.0,
        both.1,
      )

  -- With a runtime and an output to write to, get_config makes one call, with a record that is zero
  -- but for its own size, and returns the status of that call. Where that is OK, the output holds
  -- its own size and, each under its own name, the system, the node, the drop policy, the queue
  -- capacity, the state, the presence of a snapshot, the applied generation and the number of routes
  -- that the Core library wrote; where it is not, the output is as it was.
  pub get_config-copied :
      (runtime : ℕ) (out : SwiftConfigView)
      → host.find_symbol handle "coakka_v2_runtime_get_config" ≡ some address
      → (request : ConfigView) × (after : SwiftConfigView) × IsClearedConfig request
        × (get_config host (some p) (some runtime) (some out) w
            ≡ returns
                ((reply (Call.get_config (some runtime) request)).0, some after)
                (logged address (Call.get_config (some runtime) request) w))
        × (is_ok (reply (Call.get_config (some runtime) request)).0 ≡ true
            → IsConfigCopy (reply (Call.get_config (some runtime) request)).1 after)
        × (is_ok (reply (Call.get_config (some runtime) request)).0 ≡ false → after ≡ out)
  get_config-copied runtime out found =
      let r : Status × ConfigView = reply (Call.get_config (some runtime) config_request) in
      let both =
        chosen (IsConfigCopy r.1) (is_ok r.0) (swift_config r.1) out
          (swift_config-IsConfigCopy r.1) in
      (
        config_request,
        if is_ok r.0 then swift_config r.1 else out,
        config_request-IsClearedConfig,
        get_config_copy runtime out found,
        both.0,
        both.1,
      )
