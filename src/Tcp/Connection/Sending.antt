-- ===== src/Tcp/Connection/Sending.antt =====
-- core/src/network/transport/tcp/TCPConnection.cpp: the send window, the acknowledgements, the
-- retransmissions and the congestion control of the sending side.
use gns.Base.{ℕ, Bool, true, false, not, ◌&&◌, Option, none, some, ltb, ◌==◌, if◌then◌else◌}
use gns.Base.Words.{u32, add_u32, sub_u32}
use gns.Base.Floats.{Float}
use gns.Tcp.StateMachine.{
  syn_received, fin_wait_1, last_ack, is_state, on_established, on_fin_acked,
  on_retransmission_failure,
}
use gns.Tcp.Segment.{TcpSegment, payload_size}
use gns.Tcp.SendBuffer
use gns.Tcp.SendBuffer.{TcpSendEntry}
use gns.Tcp.ReceiveBuffer
use gns.Tcp.LossDetector
use gns.Tcp.Timer.{current_rto, on_timeout, on_acknowledgement, new_manager}
use gns.Tcp.Congestion
use gns.Tcp.Connection.{
  TcpConnection, get_tcp_state, is_established, reset_loss_detection, record_congestion_sample,
  max_data_retransmissions,
}
use gns.Tcp.Connection.Handshake.{finish_handshake}

module _ {T : Type 0} where
  abbrev pub in_flight : TcpConnection T → ℕ
  in_flight c = sub_u32 c.seq_num c.send_unacknowledged

  unfoldable pub set_send_window : TcpConnection T → ℕ → TcpConnection T
  set_send_window c window = record c { send_window = window }

  unfoldable pub can_send : TcpConnection T → ℕ → Bool
  can_send c size =
      if ltb c.send_window size
      then false
      else if ltb (sub_u32 c.send_window (u32 size)) (in_flight c)
      then false
      else true

  -- `TCPSendEntry entry{segment, sent_at}`.
  abbrev pub fresh_entry : TcpSegment → T → TcpSendEntry T
  fresh_entry segment sent_at = record {
    segment = segment;
    sent_at = sent_at;
    retransmitted = false;
    retransmission_count = 0;
  }

  unfoldable pub queue_sent_segment : TcpConnection T → TcpSegment → T → TcpConnection T × Bool
  unfolding can_send SendBuffer.push reset_loss_detection
  queue_sent_segment c segment sent_at =
      let (buffer, pushed) = SendBuffer.push c.send_buffer (fresh_entry segment sent_at) in
      if payload_size segment == 0
      then (c, false)
      else if not (segment.seq == c.seq_num)
      then (c, false)
      else if not (can_send c (payload_size segment))
      then (c, false)
      else if not pushed
      then (c, false)
      else (
        reset_loss_detection (record c {
          send_buffer = buffer;
          seq_num = add_u32 c.seq_num (u32 (payload_size segment));
        }),
        true,
      )

  unfoldable pub acknowledge_sent_data : TcpConnection T → ℕ → TcpConnection T × ℕ
  unfolding SendBuffer.acknowledge
  acknowledge_sent_data c ack_number =
      let (buffer, removed) = SendBuffer.acknowledge c.send_buffer ack_number in
      (record c { send_buffer = buffer }, removed)

  unfoldable pub update_send_unacknowledged : TcpConnection T → ℕ → TcpConnection T
  update_send_unacknowledged c ack_number =
      if ltb c.send_unacknowledged ack_number
      then record c { send_unacknowledged = ack_number }
      else c

  unfoldable pub get_oldest_outstanding_sequence : TcpConnection T → Option ℕ
  unfolding SendBuffer.front
  get_oldest_outstanding_sequence c = elim (SendBuffer.front c.send_buffer) [
    | none ↦ none
    | some e ↦ some e.segment.seq
  ]

  unfoldable pub has_outstanding_segment : TcpConnection T → ℕ → Bool
  unfolding SendBuffer.contains
  has_outstanding_segment c sequence = SendBuffer.contains c.send_buffer sequence

  unfoldable pub get_outstanding_segment : TcpConnection T → ℕ → Option TcpSegment
  unfolding SendBuffer.find
  get_outstanding_segment c sequence = elim (SendBuffer.find c.send_buffer sequence) [
    | none ↦ none
    | some e ↦ some e.segment
  ]

  unfoldable pub mark_segment_retransmitted : TcpConnection T → ℕ → T → TcpConnection T × Bool
  mark_segment_retransmitted c sequence retransmission_time =
      let (buffer, done) =
        SendBuffer.mark_retransmitted c.send_buffer sequence retransmission_time in
      (record c { send_buffer = buffer }, done)

  unfoldable pub get_retransmission_count : TcpConnection T → ℕ → ℕ
  unfolding SendBuffer.find
  get_retransmission_count c sequence = elim (SendBuffer.find c.send_buffer sequence) [
    | none ↦ 0
    | some e ↦ e.retransmission_count
  ]

  unfoldable pub can_retransmit : TcpConnection T → ℕ → Bool
  unfolding get_retransmission_count
  can_retransmit c sequence = ltb (get_retransmission_count c sequence) max_data_retransmissions

  unfoldable pub should_fast_retransmit : TcpConnection T → Bool
  unfolding LossDetector.should_fast_retransmit
  should_fast_retransmit c = LossDetector.should_fast_retransmit c.loss_detector

module _ {T : Type 0} (f : Float T) where
  unfoldable pub get_current_rto : TcpConnection T → T
  unfolding current_rto
  get_current_rto c = current_rto f c.rto_manager

  unfoldable pub on_send_timeout : TcpConnection T → T → TcpConnection T
  unfolding on_timeout Congestion.on_loss record_congestion_sample
  on_send_timeout c timeout_time =
      record_congestion_sample
        (record c {
          rto_manager = (on_timeout f c.rto_manager).0;
          congestion_control = Congestion.on_loss f c.congestion_control;
        })
        timeout_time

  -- The overload without a time, which records no sample.
  unfoldable pub on_send_timeout_untimed : TcpConnection T → TcpConnection T
  unfolding on_timeout Congestion.on_loss
  on_send_timeout_untimed c = record c {
    rto_manager = (on_timeout f c.rto_manager).0;
    congestion_control = Congestion.on_loss f c.congestion_control;
  }

  -- The RTT sample goes to the timer, if there is one.
  unfoldable pub take_sample : TcpConnection T → Option T → TcpConnection T
  unfolding on_acknowledgement
  take_sample c none = c
  take_sample c (some r) = record c { rto_manager = on_acknowledgement f c.rto_manager r }

  unfoldable pub notify_congestion : TcpConnection T → ℕ → T → TcpConnection T
  unfolding Congestion.on_ack record_congestion_sample
  notify_congestion c acknowledged_bytes acknowledgement_time =
      if ltb 0 acknowledged_bytes
      then record_congestion_sample
          (record c {
            congestion_control = Congestion.on_ack f c.congestion_control acknowledged_bytes;
          })
          acknowledgement_time
      else c

  unfoldable pub on_acknowledged : TcpConnection T → ℕ → T → TcpConnection T
  unfolding SendBuffer.acknowledge_and_get_rtt update_send_unacknowledged notify_congestion
      take_sample
  on_acknowledged c ack_number acknowledgement_time =
      let (buffer, sample) =
        SendBuffer.acknowledge_and_get_rtt f c.send_buffer ack_number acknowledgement_time in
      let c' = update_send_unacknowledged (record c { send_buffer = buffer }) ack_number in
      let acknowledged_bytes = sub_u32 ack_number c.send_unacknowledged in
      take_sample (notify_congestion c' acknowledged_bytes acknowledgement_time) sample

  -- The ACK of an established connection, from the check against SND.NXT on.
  unfoldable pub receive_established_ack : TcpConnection T → ℕ → T → TcpConnection T × Bool
  unfolding LossDetector.observe_ack Congestion.on_duplicate_ack record_congestion_sample
      on_acknowledged
  receive_established_ack c remote_ack acknowledgement_time =
      let observed = record c {
        loss_detector = (LossDetector.observe_ack c.loss_detector remote_ack).0;
      } in
      if ltb c.seq_num remote_ack
      then (c, false)
      else if ltb remote_ack c.send_unacknowledged
      then (c, false)
      else if remote_ack == c.send_unacknowledged
      then (
        record_congestion_sample
            (record observed {
              congestion_control = Congestion.on_duplicate_ack c.congestion_control;
            })
            acknowledgement_time,
        false,
      )
      else (on_acknowledged observed remote_ack acknowledgement_time, true)

  unfoldable pub receive_ack : TcpConnection T → ℕ → T → TcpConnection T × Bool
  unfolding on_established on_fin_acked finish_handshake receive_established_ack
  receive_ack c remote_ack acknowledgement_time =
      let (opened, open_done) = on_established c.state_machine in
      let (acked, ack_done) = on_fin_acked c.state_machine in
      if is_state (get_tcp_state c) syn_received && remote_ack == add_u32 c.seq_num 1
      then (if not open_done
          then (record c { state_machine = opened }, false)
          else (finish_handshake (record c { state_machine = opened }) remote_ack, true))
      else if is_state (get_tcp_state c) fin_wait_1 && remote_ack == add_u32 c.seq_num 1
      then (record c { state_machine = acked }, ack_done)
      else if is_state (get_tcp_state c) last_ack && remote_ack == add_u32 c.seq_num 1
      then (record c { state_machine = acked }, ack_done)
      else if not (is_established c)
      then (c, false)
      else receive_established_ack c remote_ack acknowledgement_time

  unfoldable pub fail_retransmission : TcpConnection T → TcpConnection T × Bool
  unfolding on_retransmission_failure SendBuffer.clear ReceiveBuffer.clear new_manager
      reset_loss_detection
  fail_retransmission c =
      let (m, done) = on_retransmission_failure c.state_machine in
      if not done then (c, false) else (
        record (reset_loss_detection (record c {
          state_machine = m;
          send_buffer = SendBuffer.clear c.send_buffer;
          receive_buffer = ReceiveBuffer.clear c.receive_buffer;
          rto_manager = new_manager f;
        })) { delayed_ack_pending = false },
        true,
      )

  unfoldable pub on_fast_retransmit : TcpConnection T → ℕ → T → TcpConnection T
  unfolding Congestion.on_fast_retransmit record_congestion_sample
  on_fast_retransmit c flight_size timestamp =
      record_congestion_sample
        (record c {
          congestion_control = Congestion.on_fast_retransmit f c.congestion_control flight_size;
        })
        timestamp
