-- ===== src/Tcp/Connection.antt =====
-- core/include/network/transport/tcp/TCPConnection.hpp and core/src/network/transport/tcp/
-- TCPConnection.cpp: the state of an endpoint, its constructor, and the segments that it builds.
-- A method that changes the object returns the new one, with its result if it has one. The children
-- hold the handshake and the close, the sending side, the receiving side, and the recovery.
-- `congestion_control_` is never null: the factory returns an object or throws. Node numbers are
-- indices of the topology, and the initial sequence number that `Random` draws is an argument.
pub mod Segments
pub mod Handshake
pub mod Sending
pub mod Receiving
pub mod Opening
pub mod Closing
pub mod Flow
pub mod Sender
pub mod Acknowledge
pub mod Queue
pub mod Calls
pub mod Receiver
pub mod Delivery
pub mod Recovery
pub mod Samples
pub mod Tracking
pub mod History
pub mod Duplicates
pub mod Transfer
use gns.Base.Ints.{ℤ}
use gns.Base.{
  ℕ, Bool, true, false, ◌&&◌, Option, none, some, List, [], ◌∷◌, ◌++◌, last?, min, ◌==◌,
  if◌then◌else◌,
}
use gns.Base.Words.{add_u32}
use gns.Base.Floats.{Float}
use gns.Tcp.StateMachine.{TcpState, closed, established, is_state, TcpStateMachine}
use gns.Tcp.Segment.{TcpSegment, flag_or}
use gns.Tcp.Segment.Flag
use gns.Tcp.SendBuffer.{TcpSendBuffer}
use gns.Tcp.ReceiveBuffer
use gns.Tcp.ReceiveBuffer.{TcpReceiveBuffer}
use gns.Tcp.LossDetector
use gns.Tcp.LossDetector.{TcpLossDetector}
use gns.Tcp.Timer.{RtoManager, new_manager}
use gns.Tcp.Congestion
use gns.Tcp.Congestion.{CongestionControl, CongestionControlType}

pub record TcpCongestionSample (T : Type 0) : Type 0 where
  pub timestamp : T
  pub cwnd : ℕ
  pub ssthresh : ℕ

pub record TcpConnection (T : Type 0) : Type 0 where
  pub rto_manager : RtoManager T
  pub state_machine : TcpStateMachine
  pub seq_num : ℕ  -- uint32, as the next four
  pub expected_ack_num : ℕ
  pub send_unacknowledged : ℕ
  pub send_window : ℕ
  pub syn_retries : ℕ
  pub local_node : ℤ
  pub remote_node : ℤ
  pub send_buffer : TcpSendBuffer T
  pub receive_buffer : TcpReceiveBuffer T
  pub loss_detector : TcpLossDetector
  pub delayed_ack_pending : Bool
  pub congestion_control : CongestionControl T
  pub congestion_control_type : CongestionControlType
  pub congestion_history : List (TcpCongestionSample T)

abbrev pub max_syn_retries : ℕ
max_syn_retries = 5

abbrev pub default_send_window : ℕ
default_send_window = 65535

abbrev pub default_receive_window : ℕ
default_receive_window = 65535

abbrev pub max_data_retransmissions : ℕ
max_data_retransmissions = 5

module _ {T : Type 0} where
  abbrev pub get_tcp_state : TcpConnection T → TcpState
  get_tcp_state c = c.state_machine.state

  abbrev pub is_established : TcpConnection T → Bool
  is_established c = is_state (get_tcp_state c) established

  abbrev pub is_closed : TcpConnection T → Bool
  is_closed c = is_state (get_tcp_state c) closed

  unfoldable pub set_seq_num : TcpConnection T → ℕ → TcpConnection T
  set_seq_num c value = record c { seq_num = value }

  unfoldable pub set_expected_ack_num : TcpConnection T → ℕ → TcpConnection T
  unfolding ReceiveBuffer.set_next_sequence
  set_expected_ack_num c value = record c {
    expected_ack_num = value;
    receive_buffer = ReceiveBuffer.set_next_sequence c.receive_buffer value;
  }

  unfoldable pub reset_loss_detection : TcpConnection T → TcpConnection T
  unfolding LossDetector.observe_ack LossDetector.reset
  reset_loss_detection c = record c {
    loss_detector = (LossDetector.observe_ack LossDetector.reset c.send_unacknowledged).0;
  }

  -- Whether the newest sample of the history has this window and threshold.
  unfoldable pub same_sample : Option (TcpCongestionSample T) → ℕ → ℕ → Bool
  same_sample none cwnd ssthresh = false
  same_sample (some previous) cwnd ssthresh = previous.cwnd == cwnd && previous.ssthresh == ssthresh

  unfoldable pub record_congestion_sample : TcpConnection T → T → TcpConnection T
  unfolding same_sample Congestion.get_cwnd Congestion.get_ssthresh
  record_congestion_sample c timestamp =
      let cwnd = Congestion.get_cwnd c.congestion_control in
      let ssthresh = Congestion.get_ssthresh c.congestion_control in
      let sample : TcpCongestionSample T = record {
        timestamp = timestamp;
        cwnd = cwnd;
        ssthresh = ssthresh;
      } in
      if same_sample (last? c.congestion_history) cwnd ssthresh
      then c
      else record c { congestion_history = c.congestion_history ++ sample ∷ [] }

  -- `static_cast<std::uint16_t>(std::min<std::size_t>(receive_buffer_.availableWindow(), 65535))`.
  unfoldable pub advertised_window : TcpConnection T → ℕ
  unfolding ReceiveBuffer.available_window
  advertised_window c = min (ReceiveBuffer.available_window c.receive_buffer) 65535

  unfoldable pub build_syn : TcpConnection T → TcpSegment
  unfolding advertised_window
  build_syn c = record {
    seq = c.seq_num;
    ack = 0;
    window = advertised_window c;
    flags = Flag.syn;
    payload = [];
  }

  unfoldable pub build_syn_ack : TcpConnection T → TcpSegment
  unfolding advertised_window
  build_syn_ack c = record {
    seq = c.seq_num;
    ack = c.expected_ack_num;
    window = advertised_window c;
    flags = flag_or Flag.syn Flag.ack;
    payload = [];
  }

  unfoldable pub build_ack : TcpConnection T → TcpSegment
  unfolding advertised_window
  build_ack c = record {
    seq = c.seq_num;
    ack = c.expected_ack_num;
    window = advertised_window c;
    flags = Flag.ack;
    payload = [];
  }

  unfoldable pub build_fin : TcpConnection T → TcpSegment
  unfolding advertised_window
  build_fin c = record {
    seq = c.seq_num;
    ack = c.expected_ack_num;
    window = advertised_window c;
    flags = flag_or Flag.fin Flag.ack;
    payload = [];
  }

  unfoldable pub build_rst : TcpConnection T → ℕ → TcpSegment
  build_rst c remote_seq = record {
    seq = c.seq_num;
    ack = add_u32 remote_seq 1;
    window = 0;
    flags = flag_or Flag.rst Flag.ack;
    payload = [];
  }

module _ {T : Type 0} (f : Float T) where
  -- The members as the constructor initializes them.
  abbrev pub initial_connection :
      TcpState → ℕ → ℕ → ℤ → ℤ → CongestionControlType → CongestionControl T → TcpConnection T
  initial_connection state seq_num expected_ack_num local_node remote_node type control = record {
    rto_manager = new_manager f;
    state_machine = record { state = state };
    seq_num = seq_num;
    expected_ack_num = expected_ack_num;
    send_unacknowledged = seq_num;
    send_window = default_send_window;
    syn_retries = 0;
    local_node = local_node;
    remote_node = remote_node;
    send_buffer = record { entries = []; capacity = 0 };
    receive_buffer = ReceiveBuffer.empty expected_ack_num default_receive_window;
    loss_detector = LossDetector.reset;
    delayed_ack_pending = false;
    congestion_control = control;
    congestion_control_type = type;
    congestion_history = [];
  }

  -- What the constructor does once the congestion control is built.
  unfoldable pub connect :
      TcpState → ℕ → ℕ → ℤ → ℤ → CongestionControlType → CongestionControl T → TcpConnection T
  unfolding reset_loss_detection record_congestion_sample new_manager ReceiveBuffer.empty
      LossDetector.reset
  connect state seq_num expected_ack_num local_node remote_node type control =
      let c =
        initial_connection state seq_num expected_ack_num local_node remote_node type control in
      record_congestion_sample (reset_loss_detection c) (f.literal 0 1)

  -- The constructor; none where the congestion control's constructor throws.
  unfoldable pub create :
      TcpState → ℕ → ℕ → ℤ → ℤ → CongestionControlType → ℕ → ℕ → Option (TcpConnection T)
  unfolding connect Congestion.create
  create state seq_num expected_ack_num local_node remote_node type mss initial_ssthresh =
      elim (Congestion.create f type mss initial_ssthresh) [
        | none ↦ none
        | some control ↦
            some (connect state seq_num expected_ack_num local_node remote_node type control)
      ]
