-- ===== src/Tcp/Connection/Receiving.antt =====
-- core/src/network/transport/tcp/TCPConnection.cpp: the data that arrives, and the delayed ACK.
use gns.Base.{ℕ, Bool, true, false, not, List, length, ◌==◌, if◌then◌else◌}
use gns.Tcp.Segment.{flag_or}
use gns.Tcp.Segment.Flag
use gns.Tcp.ReceiveBuffer
use gns.Tcp.ReceiveBuffer.{TcpReceiveEntry}
use gns.Tcp.Connection.{TcpConnection}

module _ {T : Type 0} where
  -- The entry that `receive_data` makes of its arguments.
  abbrev pub received_entry : TcpConnection T → ℕ → List ℕ → T → TcpReceiveEntry T
  received_entry c sequence payload received_at = record {
    segment = record {
      seq = sequence;
      ack = c.expected_ack_num;
      window = 0;
      flags = flag_or Flag.ack Flag.psh;
      payload = payload;
    };
    received_at = received_at;
  }

  unfoldable pub receive_data : TcpConnection T → ℕ → List ℕ → T → TcpConnection T × Bool
  receive_data c sequence payload received_at =
      let (pushed, accepted) =
        ReceiveBuffer.push c.receive_buffer (received_entry c sequence payload received_at) in
      let buffer = (ReceiveBuffer.consume_contiguous pushed).0 in
      if length payload == 0
      then (c, false)
      else if not accepted
      then (c, false)
      else (record c { receive_buffer = buffer; expected_ack_num = buffer.next_sequence }, true)

  unfoldable pub mark_delayed_ack_pending : TcpConnection T → TcpConnection T
  mark_delayed_ack_pending c = record c { delayed_ack_pending = true }

  unfoldable pub clear_delayed_ack_pending : TcpConnection T → TcpConnection T
  clear_delayed_ack_pending c = record c { delayed_ack_pending = false }
