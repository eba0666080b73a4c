-- ===== src/Tcp/Segment/Flag.antt =====
-- The enumerators of `TCPFlag` in core/include/network/transport/tcp/TCPSegment.hpp.
use gns.Base.{ℕ}

abbrev pub no_flag : ℕ
no_flag = 0

abbrev pub syn : ℕ
syn = 1

abbrev pub ack : ℕ
ack = 2

abbrev pub fin : ℕ
fin = 4

abbrev pub rst : ℕ
rst = 8

abbrev pub psh : ℕ
psh = 16
