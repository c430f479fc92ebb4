-- ===== src/Tcp/Tests.antt =====
-- The receiving side of TCP in kernel/net/net_stack.c, at a packet with two bytes.
use next_os.Prelude.{ℕ, refl, inr, List, [], ◌∷◌, replicate, length-replicate, arith}
use next_os.Tcp.{RxBuffer, established, Tcp, tcp_rx_buf_size}
use next_os.Tcp.Ring.{IsRing}
use next_os.Tcp.Stream.{Event, packet, read, run, Delivered, run-Delivered}

abbrev empty : RxBuffer
empty = record { buf = replicate tcp_rx_buf_size 0; head = 0; tail = 0 }

abbrev connection : Tcp
connection = record {
  state = established;
  remote_ip = 9;
  local_port = 5;
  remote_port = 80;
  local_seq = 1;
  local_ack = 100;
  remote_seq = 100;
  rx = empty;
}

-- Two bytes from sequence number 100 on.
abbrev two_bytes : List ℕ
two_bytes =
    0 ∷ 80 ∷ 0 ∷ 5 ∷ 0 ∷ 0 ∷ 0 ∷ 100 ∷ 0 ∷ 0 ∷ 0 ∷ 1 ∷ 80 ∷ 24 ∷ 32 ∷ 0 ∷ 0 ∷ 0 ∷ 0 ∷ 0 ∷ 7 ∷ 8 ∷ []

empty-IsRing : IsRing empty
empty-IsRing = record {
  sized = length-replicate {A = ℕ} tcp_rx_buf_size 0;
  head_in = omega arith;
  tail_in = omega arith;
}

abbrev events : List Event
events = packet 9 two_bytes ∷ read 1 ∷ []

run-Delivered_example :
    Delivered (7 ∷ 8 ∷ 6 ∷ []) 100 (run events connection).1 (run events connection).0
run-Delivered_example =
    run-Delivered (7 ∷ 8 ∷ 6 ∷ []) 100 (omega arith) events connection refl empty-IsRing refl refl
      (inr (0, omega arith, refl, refl, omega arith), (tt, tt))
