-- ===== src/Tcp/Connection/Segments.antt =====
-- The segments that core/src/network/transport/tcp/TCPConnection.cpp builds, and the packet type
-- that core/include/network/Packet.hpp infers of each.
use gns.Base.{ℕ, ◌≤◌, ◌<◌, ◌≡◌, refl, arith}
use gns.Base.Words.{u32_mod}
use gns.Tcp.Segment.{
  TcpSegment, payload_size, infer_packet_type, syn_packet, syn_ack_packet, ack_packet, fin_packet,
  rst_packet,
}
use gns.Tcp.Connection.{
  TcpConnection, build_syn, build_syn_ack, build_ack, build_fin, build_rst, advertised_window,
}

-- A segment whose fields fit their widths, without payload.
pub record IsBare (s : TcpSegment) : Type 0 where
  pub seq_word : s.seq < u32_mod
  pub ack_word : s.ack < u32_mod
  pub window_word : s.window ≤ 65535
  pub flags_byte : s.flags < 256
  pub no_payload : payload_size s ≡ 0

module _ {T : Type 0} where
  window_fits : (c : TcpConnection T) → advertised_window c ≤ 65535
  unfolding advertised_window
  window_fits c = omega arith

  -- Each of the five segments that a connection builds is inferred to be the packet of its name, and
  -- where the sequence numbers of the connection are 32-bit words, it has no payload and its fields
  -- fit their widths, the window with its 16 bits among them.
  pub built_segments :
      (c : TcpConnection T) (remote_seq : ℕ)
      → c.seq_num < u32_mod
      → c.expected_ack_num < u32_mod
      → ((infer_packet_type (build_syn c) ≡ syn_packet) × IsBare (build_syn c))
        × ((infer_packet_type (build_syn_ack c) ≡ syn_ack_packet) × IsBare (build_syn_ack c))
        × ((infer_packet_type (build_ack c) ≡ ack_packet) × IsBare (build_ack c))
        × ((infer_packet_type (build_fin c) ≡ fin_packet) × IsBare (build_fin c))
        × ((infer_packet_type (build_rst c remote_seq) ≡ rst_packet)
            × IsBare (build_rst c remote_seq))
  unfolding build_syn build_syn_ack build_ack build_fin build_rst infer_packet_type
  built_segments c remote_seq s e = (
    (refl, ground (arith, window_fits c)),
    (refl, ground (arith, window_fits c)),
    (refl, ground (arith, window_fits c)),
    (refl, ground (arith, window_fits c)),
    (refl, ground arith),
  )
