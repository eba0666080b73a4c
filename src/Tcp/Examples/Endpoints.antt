-- ===== src/Tcp/Examples/Endpoints.antt =====
-- Connections at concrete points of their life.
use gns.Tcp.Examples.Fractions.{Fraction, fractions}
use gns.Base.Ints.{pos}
use gns.Base.{ℕ, true, false, [], ◌∷◌, refl, arith, ◌<◌, ◌≤◌}
use gns.Base.Words.{u32_mod}
use gns.Tcp.StateMachine.{TcpState, established}
use gns.Tcp.Segment.{TcpSegment}
use gns.Tcp.Segment.Flag
use gns.Tcp.SendBuffer.{sequence_end}
use gns.Tcp.ReceiveBuffer.{empty}
use gns.Tcp.ReceiveBuffer.Laws.{IsValid}
use gns.Tcp.Congestion.{CongestionControl, tahoe, reno, new_reno, reno_type}
use gns.Tcp.Congestion.Reno.{RenoCongestionControl}
use gns.Tcp.Congestion.Safety.{IsSafe}
use gns.Tcp.Connection.{TcpConnection, initial_connection}
use gns.Tcp.Connection.Sending.{fresh_entry}
use gns.Tcp.Connection.Sender.{Sending}
use gns.Tcp.Connection.Opening.{Connected}
use gns.Tcp.Connection.Receiver.{Receiving}

abbrev pub new_tahoe : CongestionControl Fraction
new_tahoe = tahoe (record { mss = 1000; initial_ssthresh = 8000; cwnd = 1000; ssthresh = 8000 })

abbrev pub new_reno_record : RenoCongestionControl
new_reno_record = record {
  mss = 1000;
  initial_ssthresh = 8000;
  cwnd = 1000;
  ssthresh = 8000;
  fast_recovery = false;
}

abbrev pub idle_reno : CongestionControl Fraction
idle_reno = reno new_reno_record

abbrev pub recovering_reno : CongestionControl Fraction
recovering_reno =
    reno (record new_reno_record { cwnd = 5000; ssthresh = 2000; fast_recovery = true })

abbrev pub idle_new_reno : CongestionControl Fraction
idle_new_reno = new_reno (record {
  mss = 1000;
  initial_ssthresh = 8000;
  cwnd = 1000;
  ssthresh = 8000;
  recovery_ssthresh = 0;
  fast_recovery = false;
  partial_ack_observed = false;
})

abbrev pub endpoint : TcpState → ℕ → ℕ → TcpConnection Fraction
endpoint state seq_num expected =
    initial_connection fractions state seq_num expected (pos 0) (pos 1) reno_type idle_reno

abbrev pub client : TcpConnection Fraction
client = endpoint established 100 500

abbrev pub server : TcpConnection Fraction
server = endpoint established 500 100

abbrev pub segment_at : ℕ → TcpSegment
segment_at seq = record {
  seq = seq;
  ack = 500;
  window = 65535;
  flags = Flag.psh;
  payload = 7 ∷ 8 ∷ 9 ∷ [];
}

-- Three bytes are on their way from 100 on, and nothing is acknowledged.
abbrev pub sender : TcpConnection Fraction
sender = record client {
  seq_num = 103;
  send_buffer = record { entries = fresh_entry (segment_at 100) (1, 2) ∷ []; capacity = 0 };
}

abbrev pub recovering_sender : TcpConnection Fraction
recovering_sender = record sender { congestion_control = recovering_reno }

-- An established connection whose next segment runs over the last sequence number.
abbrev pub last_sender : TcpConnection Fraction
last_sender = endpoint established 4294967294 500

pub connected : Connected client server
connected = record {
  client_open = refl;
  server_open = refl;
  to_server = refl;
  to_client = refl;
  client_settled = refl;
  server_settled = refl;
}

pub sender-Sending : Sending sender 100
unfolding sequence_end
sender-Sending = record {
  opened = refl;
  chain = (refl, omega arith, refl);
  begins = omega arith;
  front = ground arith;
  ordered = omega arith;
  word = omega arith;
  unlimited = refl;
}

pub client-Sending : Sending client 100
client-Sending = record {
  opened = refl;
  chain = refl;
  begins = omega arith;
  front = tt;
  ordered = omega arith;
  word = omega arith;
  unlimited = refl;
}

pub empty-IsValid : (n c : ℕ) → n < u32_mod → 0 < c → c ≤ 65535 → IsValid (empty {T = Fraction} n c)
unfolding empty
empty-IsValid n c h p l = record {
  ascending = tt;
  has_bytes = tt;
  counted = refl;
  within = omega arith;
  bounded = p;
  word = omega arith;
  next_word = h;
}

pub server-Receiving : Receiving server
unfolding empty
server-Receiving = record {
  valid = empty-IsValid 100 65535 (omega arith) (omega arith) (omega arith);
  expected = refl;
}

pub idle_reno-IsSafe : IsSafe idle_reno
idle_reno-IsSafe = ground arith

pub recovering_reno-IsSafe : IsSafe recovering_reno
recovering_reno-IsSafe = ground arith
