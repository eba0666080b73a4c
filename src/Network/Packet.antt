-- ===== src/Network/Packet.antt =====
-- core/include/network/Packet.hpp and core/include/network/PacketTravelInfo.hpp. The type of a packet
-- and `inferPacketType` are in Tcp.Segment. Sizes and hop counts are natural numbers.
use gns.Base.{ℕ, []}
use gns.Base.Ints.{ℤ, minus_one}
use gns.Base.Floats.{Float}
use gns.Tcp.Segment.{TcpSegment, PacketType, data_packet}

pub record Packet (T : Type 0) : Type 0 where
  pub source : ℤ
  pub destination : ℤ
  pub current_node : ℤ
  pub previous_node : ℤ
  pub creation_time : T
  pub departure_time : T
  pub arrival_time : T
  pub packet_size_bytes : ℕ
  pub hop_count : ℕ
  pub session_id : ℕ  -- uint64
  pub link_id : ℕ  -- uint64
  pub tcp : TcpSegment
  pub packet_type : PacketType

pub record PacketTravelInfo (T : Type 0) : Type 0 where
  pub departure_time : T
  pub arrival_time : T
  pub from_node : ℤ
  pub to_node : ℤ
  pub packet_type : PacketType
  pub link_id : ℕ  -- uint64

-- The members of TCPSegment as they are initialized.
abbrev empty_segment : TcpSegment
empty_segment = record { seq = 0; ack = 0; window = 0; flags = 0; payload = [] }

module _ {T : Type 0} (f : Float T) where
  unfoldable pub new_packet : ℤ → ℤ → ℤ → T → ℕ → ℕ → Packet T
  new_packet source destination current_node creation_time packet_size_bytes session_id = record {
    source = source;
    destination = destination;
    current_node = current_node;
    previous_node = minus_one;
    creation_time = creation_time;
    departure_time = f.literal 0 1;
    arrival_time = f.literal 0 1;
    packet_size_bytes = packet_size_bytes;
    hop_count = 0;
    session_id = session_id;
    link_id = 0;
    tcp = empty_segment;
    packet_type = data_packet;
  }
