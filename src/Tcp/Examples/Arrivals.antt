-- ===== src/Tcp/Examples/Arrivals.antt =====
-- Data at concrete receivers, and a transfer to one.
use mathlib.Core.List.{Perm}
use gns.Tcp.Examples.Fractions.{Fraction, fractions}
use gns.Tcp.Examples.Endpoints.{server, sender, sender-Sending, server-Receiving}
use gns.Base.{ℕ, ◌+◌, ◌%◌, ◌≤◌, ◌≡◌, refl, ◌⊎◌, true, false, List, [], ◌∷◌, ◌++◌, length, arith}
use gns.Base.Words.{u32_mod}
use gns.Tcp.ReceiveBuffer
use gns.Tcp.ReceiveBuffer.{TcpReceiveEntry, TcpReceiveBuffer, consume_contiguous}
use gns.Tcp.ReceiveBuffer.Laws.{IsValid, Fits, sizes, push_cases}
use gns.Tcp.ReceiveBuffer.Consume.{Chain, HeadIsNot, consume_contiguous_lem}
use gns.Tcp.Connection.Sending.{receive_ack}
use gns.Tcp.Connection.Receiving.{received_entry, receive_data}
use gns.Tcp.Connection.Receiver.{Receiving, Data, receive_all}
use gns.Tcp.Connection.Delivery.{Delivered, receive_data_cases, overlap_blocks}
use gns.Tcp.Connection.{build_ack}
use gns.Tcp.Connection.Transfer.{Ready, deliver, transfer}

abbrev bytes : List ℕ
bytes = 7 ∷ 8 ∷ 9 ∷ []

abbrev arrived : TcpReceiveEntry Fraction
arrived = received_entry server 100 bytes (1, 1)

abbrev buffer : TcpReceiveBuffer Fraction
buffer = record {
  entries =
      arrived
      ∷ received_entry server 103 bytes (1, 1)
      ∷ received_entry server 109 bytes (1, 1)
      ∷ [];
  next_sequence = 100;
  capacity_bytes = 20;
  buffered_bytes = 9;
}

buffer-IsValid : IsValid buffer
buffer-IsValid = record {
  ascending = (omega arith, (omega arith, (omega arith, tt)));
  has_bytes = (omega arith, (omega arith, (omega arith, tt)));
  counted = refl;
  within = omega arith;
  bounded = omega arith;
  word = omega arith;
  next_word = omega arith;
}

consume_contiguous_lem_example :
    let (c, count) = consume_contiguous buffer in
    (gone : List (TcpReceiveEntry Fraction)) × (buffer.entries ≡ gone ++ c.entries)
    × Chain buffer.next_sequence gone c.next_sequence
    × HeadIsNot c.next_sequence c.entries
    × (c.next_sequence ≡ (buffer.next_sequence + sizes gone) % u32_mod)
    × (count ≡ length gone)
    × IsValid c
consume_contiguous_lem_example = consume_contiguous_lem buffer buffer-IsValid

abbrev newcomer : TcpReceiveEntry Fraction
newcomer = received_entry server 106 bytes (2, 1)

push_cases_example :
    ((Fits buffer newcomer
        × ((ReceiveBuffer.push buffer newcomer).1 ≡ true)
        × Perm (ReceiveBuffer.push buffer newcomer).0.entries (newcomer ∷ buffer.entries))
      ⊎ ((¬ Fits buffer newcomer) × (ReceiveBuffer.push buffer newcomer ≡ (buffer, false))))
    × IsValid (ReceiveBuffer.push buffer newcomer).0
push_cases_example = push_cases buffer newcomer buffer-IsValid

receive_data_cases_example :
    let (d, accepted) = receive_data server 100 bytes (1, 1) in
    ((Fits server.receive_buffer arrived
        × (accepted ≡ true)
        × ((gone : List (TcpReceiveEntry Fraction)) × Delivered server d arrived gone))
      ⊎ ((¬ Fits server.receive_buffer arrived) × (d ≡ server) × (accepted ≡ false)))
    × Receiving d
receive_data_cases_example = receive_data_cases server 100 bytes (1, 1) server-Receiving

server_empty : server.receive_buffer.entries ≡ []
unfolding ReceiveBuffer.empty
server_empty = refl

server_room : length bytes + length bytes ≤ server.receive_buffer.capacity_bytes
unfolding ReceiveBuffer.empty
server_room = omega arith

abbrev later : List (Data Fraction)
later = (103, bytes, (3, 1)) ∷ (100, bytes, (4, 1)) ∷ []

overlap_blocks_example :
    let d = (receive_data server (100 + 1) bytes (1, 1)).0 in
    let e = (receive_data d 100 bytes (2, 1)).0 in
    ((receive_data server (100 + 1) bytes (1, 1)).1 ≡ true)
    × ((receive_data d 100 bytes (2, 1)).1 ≡ true)
    × (e.expected_ack_num ≡ 100 + length bytes)
    × ((receive_all e later).expected_ack_num ≡ 100 + length bytes)
overlap_blocks_example =
    overlap_blocks server bytes bytes 1 (1, 1) (2, 1) later server-Receiving server_empty
      (omega arith) (omega arith) (omega arith) server_room (omega arith)

server-Ready : Ready server 100 65535
unfolding ReceiveBuffer.empty
server-Ready = record {
  drained = refl;
  wants = refl;
  awaits = refl;
  unused = refl;
  room = refl;
  room_word = omega arith;
}

transfer_example :
    let r = deliver server sender.send_buffer.entries (2, 1) in
    let (s, fresh) = receive_ack fractions sender (build_ack r).ack (3, 1) in
    Ready r 103 65535
    × ((fresh ≡ true)
        × (s.send_buffer.entries ≡ [])
        × (s.send_unacknowledged ≡ 103)
        × (s.seq_num ≡ 103))
transfer_example =
    transfer fractions sender server 100 65535 (2, 1) (3, 1) sender-Sending (omega arith)
      server-Ready (omega arith, tt)
