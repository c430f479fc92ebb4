-- ===== src/Tcp/Steps.antt =====
-- The states of a connection in kernel/net/net_stack.c, and the packets that change them.
use next_os.Prelude.{◌/◌, ◌*◌, ◌+◌, ◌≤◌, ℕ, ◌<◌, bit_and, ◌≡◌, List, length, get_or}
use next_os.Tcp.{TcpState, closed, syn_sent, established, fin_wait, Tcp}

-- A change of the state by a packet with these flags: 1 is FIN, 2 SYN, 4 RST and 16 ACK.
pub data Move (flags : ℕ) : TcpState → TcpState → Type 0 where
  stays : {s : TcpState} → Move flags s s
  opened : bit_and flags 18 ≡ 18 → Move flags syn_sent established
  finished : 0 < bit_and flags 1 → Move flags established closed
  reset : 0 < bit_and flags 4 → Move flags established closed
  answered : 0 < bit_and flags 17 → Move flags fin_wait closed

-- A packet with a whole header that the other side sends to the port of the connection.
pub record Addressed (src_ip : ℕ) (bytes : List ℕ) (t : Tcp) : Type 0 where
  pub header : 20 ≤ length bytes
  pub least : 20 ≤ get_or bytes 12 0 / 16 * 4
  pub whole : get_or bytes 12 0 / 16 * 4 ≤ length bytes
  pub port : get_or bytes 2 0 * 256 + get_or bytes 3 0 ≡ t.local_port
  pub from_remote : src_ip ≡ t.remote_ip
