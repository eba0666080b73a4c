-- ===== src/Network/Node.antt =====
-- core/include/network/Node.hpp and core/include/network/Interface.hpp, without their display names.
use gns.Base.{ℕ, Bool, true}
use gns.Base.Ints.{ℤ}

pub record Node : Type 0 where
  pub id : ℤ
  pub active : Bool

pub record Interface : Type 0 where
  pub node_id : ℤ
  pub link_id : ℕ  -- uint64
  pub mtu : ℕ  -- size_t
  pub up : Bool

unfoldable pub new_node : ℤ → Node
new_node id = record { id = id; active = true }

unfoldable pub set_active : Node → Bool → Node
set_active n active = record n { active = active }

unfoldable pub new_interface : ℤ → ℕ → Interface
new_interface node_id link_id = record { node_id = node_id; link_id = link_id; mtu = 0; up = true }

unfoldable pub set_mtu : Interface → ℕ → Interface
set_mtu i mtu = record i { mtu = mtu }

unfoldable pub set_interface_up : Interface → Bool → Interface
set_interface_up i up = record i { up = up }
