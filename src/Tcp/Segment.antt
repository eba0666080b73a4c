-- ===== src/Tcp/Segment.antt =====
-- core/include/network/transport/tcp/TCPSegment.hpp, and `inferPacketType` of
-- core/include/network/Packet.hpp with core/include/enums/PacketType.hpp.
-- Flags are the byte of the C++ enumeration; a payload is its list of bytes.
pub mod Flag
pub mod Laws
use Prim.Native.Nat.{bit_and, bit_or}
use Flag
use gns.Base.{ℕ, ◌-◌, Bool, true, false, not, ◌&&◌, List, length, ◌==◌, if◌then◌else◌}

-- `operator|` on flags.
abbrev pub flag_or : ℕ → ℕ → ℕ
flag_or a b = bit_or a b

unfoldable pub has_flag : ℕ → ℕ → Bool
has_flag flags flag = not (bit_and flags flag == 0)

pub record TcpSegment : Type 0 where
  pub seq : ℕ  -- uint32
  pub ack : ℕ  -- uint32
  pub window : ℕ  -- uint16
  pub flags : ℕ  -- uint8
  pub payload : List ℕ

abbrev pub payload_size : TcpSegment → ℕ
payload_size s = length s.payload

-- `~flag` on the promoted byte, cut to the byte again by the `&`, is 255 - flag.
unfoldable pub set_flag : ℕ → ℕ → Bool → ℕ
set_flag flags flag value = if value then bit_or flags flag else bit_and flags (255 - flag)

pub data PacketType : Type 0 where
  syn_packet syn_ack_packet ack_packet data_packet fin_packet rst_packet : PacketType

unfoldable pub infer_packet_type : TcpSegment → PacketType
infer_packet_type s =
    let syn = bit_and s.flags Flag.syn == Flag.syn in
    let ack = bit_and s.flags Flag.ack == Flag.ack in
    let fin = bit_and s.flags Flag.fin == Flag.fin in
    let psh = bit_and s.flags Flag.psh == Flag.psh in
    let rst = bit_and s.flags Flag.rst == Flag.rst in
    if rst
    then rst_packet
    else if syn && ack
    then syn_ack_packet
    else if fin && ack
    then fin_packet
    else if syn
    then syn_packet
    else if fin
    then fin_packet
    else if psh
    then data_packet
    else if ack
    then ack_packet
    else data_packet
