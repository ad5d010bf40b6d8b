-- ===== src/Bridge/Lifecycle/Network.antt =====
-- The presence mask that coakka_swift_runtime_apply_network builds, beside the meaning that
-- coakka/v2/runtime_transport_config.h gives its bits.
use coakka_runtime_swift.Prelude.{
  ℕ, ◌+◌, Bool, false, ◌||◌, not, is_null, ◌==◌, ◌≡◌, ◌≢◌, ◌↔◌, if◌then◌else◌, arith,
}
use coakka_runtime_swift.Core.Records.{Ptr}
use coakka_runtime_swift.Bridge.Lifecycle.{network_node, add_field, network_fields}

-- COAKKA_V2_NETWORK_FIELD_MODE and the four others
abbrev pub field_mode : ℕ
field_mode = 1

abbrev pub field_bind_host : ℕ
field_bind_host = 2

abbrev pub field_bind_port : ℕ
field_bind_port = 4

abbrev pub field_advertise_host : ℕ
field_advertise_host = 8

abbrev pub field_advertise_port : ℕ
field_advertise_port = 16

abbrev when : Bool → ℕ → ℕ
when test bit = if test then bit else 0

-- The mask that the header documents for a set of present members.
unfoldable pub documented_fields : Bool → Bool → Bool → Bool → ℕ
documented_fields bind_host bind_port advertise_host advertise_port =
    field_mode
    + when bind_host field_bind_host
    + when bind_port field_bind_port
    + when advertise_host field_advertise_host
    + when advertise_port field_advertise_port

abbrev pub given : ℕ → Bool → Bool
given mode present = (mode == network_node) || present

fields_table :
    (mode b c d e : Bool)
    → add_field e 0x10
        (add_field d 0x08 (add_field c 0x04 (add_field b 0x02 (if mode then 0x1f else 0x01))))
      ≡ documented_fields (mode || b) (mode || c) (mode || d) (mode || e)
unfolding add_field documented_fields
fields_table mode b c d e = ground arith

-- fields is 1 plus one bit for each member that is present or, in NODE mode, for every member; but
-- the bit that the header gives to bind_port stands for advertise_host, and the other way round.
pub network_fields_swapped :
    (mode : ℕ) (bind_host : Ptr) (bind_port : ℕ) (advertise_host : Ptr) (advertise_port : ℕ)
    → network_fields mode bind_host bind_port advertise_host advertise_port
      ≡ documented_fields
          (given mode (not (is_null bind_host)))
          (given mode (not (is_null advertise_host)))
          (given mode (not (bind_port == 0)))
          (given mode (not (advertise_port == 0)))
unfolding network_fields
network_fields_swapped mode bind_host bind_port advertise_host advertise_port =
    fields_table (mode == network_node) (not (is_null bind_host)) (not (is_null advertise_host))
      (not (bind_port == 0)) (not (advertise_port == 0))

documented_fields_swap :
    (b c d e : Bool) → (documented_fields b d c e ≡ documented_fields b c d e) ↔ (c ≡ d)
unfolding documented_fields
documented_fields_swap b c d e = ground arith

node_only : (mode : ℕ) → mode ≢ network_node → mode == network_node ≡ false
node_only mode other = ground arith

-- Outside NODE mode the mask is the documented one for the members that are given exactly where
-- bind_port and advertise_host are both given or both not given.
pub network_fields_documented :
    (mode : ℕ) (bind_host : Ptr) (bind_port : ℕ) (advertise_host : Ptr) (advertise_port : ℕ)
    → mode ≢ network_node
    → (network_fields mode bind_host bind_port advertise_host advertise_port
        ≡ documented_fields
            (not (is_null bind_host))
            (not (bind_port == 0))
            (not (is_null advertise_host))
            (not (advertise_port == 0)))
      ↔ (not (bind_port == 0) ≡ not (is_null advertise_host))
unfolding network_fields
network_fields_documented mode bind_host bind_port advertise_host advertise_port other =
    rw
      (
        network_fields_swapped mode bind_host bind_port advertise_host advertise_port,
        node_only mode other,
      )
      (documented_fields_swap (not (is_null bind_host)) (not (bind_port == 0))
        (not (is_null advertise_host)) (not (advertise_port == 0)))
