-- ===== src/Tcp.antt =====
-- The receiving side of TCP in kernel/net/net_stack.c: `tcp_handle`, and the loop of
-- `tcp_receive_data` that empties the buffer. A call of `send_tcp` is what it is told to send; the
-- address of the other side is taken to be in the ARP cache, since the wait for it handles packets
-- meanwhile. A number of 32 bits wraps around.
pub mod Ring
pub mod Handle
pub mod Stream
pub mod Steps
mod Tests
use next_os.Prelude.{
  ℕ, zero, suc, ◌+◌, ◌-◌, ◌*◌, ◌/◌, ◌%◌, ◌^◌, bit_and, bit_or, Bool, true, false, not, ◌&&◌, ◌||◌,
  List, [], ◌∷◌, ◌++◌, ltb, ◌==◌, if◌then◌else◌, length, get_or, set, drop,
}

abbrev pub tcp_rx_buf_size : ℕ
tcp_rx_buf_size = 65536

-- `tcp_rx_buf` with its two indices
pub record RxBuffer : Type 0 where
  pub buf : List ℕ
  pub head : ℕ
  pub tail : ℕ

pub data TcpState : Type 0 where
  closed syn_sent established fin_wait : TcpState

pub record Tcp : Type 0 where
  pub state : TcpState
  pub remote_ip : ℕ
  pub local_port : ℕ
  pub remote_port : ℕ
  pub local_seq : ℕ
  pub local_ack : ℕ
  pub remote_seq : ℕ
  pub rx : RxBuffer

abbrev pub tcp_fin : ℕ
tcp_fin = 1

abbrev pub tcp_syn : ℕ
tcp_syn = 2

abbrev pub tcp_rst : ℕ
tcp_rst = 4

abbrev pub tcp_ack : ℕ
tcp_ack = 16

-- The arguments of a call of `send_tcp` without data.
pub record Sent : Type 0 where
  pub dst_ip : ℕ
  pub src_port : ℕ
  pub dst_port : ℕ
  pub seq : ℕ
  pub ack : ℕ
  pub flags : ℕ

abbrev pub send : Tcp → ℕ → Sent
send t flags = record {
  dst_ip = t.remote_ip;
  src_port = t.local_port;
  dst_port = t.remote_port;
  seq = t.local_seq;
  ack = t.local_ack;
  flags = flags;
}

-- `ntohs` and `ntohl` of a field of the header.
abbrev pub net16 : List ℕ → ℕ → ℕ
net16 bytes at = get_or bytes at 0 * 256 + get_or bytes (at + 1) 0

abbrev pub net32 : List ℕ → ℕ → ℕ
net32 bytes at = net16 bytes at * 65536 + net16 bytes (at + 2)

-- The loop that stores the data of a packet, and breaks off when the buffer is full.
unfoldable pub store : List ℕ → RxBuffer → RxBuffer
store [] rx = rx
store (b ∷ bytes) rx =
    let next = (rx.head + 1) % tcp_rx_buf_size in
    let stored = store bytes (record { buf = set rx.buf rx.head b; head = next; tail = rx.tail }) in
    if next == rx.tail then rx else stored

unfoldable pub receive_data : ℕ → List ℕ → Tcp → Tcp × List Sent
receive_data seq payload t =
    let u = record t { rx = store payload t.rx; local_ack = (seq + length payload) % 2 ^ 32 } in
    if ltb 0 (length payload) && seq == t.local_ack then (u, send u tcp_ack ∷ []) else (t, [])

unfoldable pub receive_fin : ℕ → ℕ → ℕ → Tcp → Tcp × List Sent
receive_fin flags seq payload_len t =
    let u = record t {
      local_ack =
          if ltb 0 payload_len then (seq + payload_len + 1) % 2 ^ 32 else (seq + 1) % 2 ^ 32;
    } in
    if bit_and flags tcp_fin == 0
    then (t, [])
    else (record u { state = closed }, send u (bit_or tcp_ack tcp_fin) ∷ [])

unfoldable pub receive_rst : ℕ → Tcp → Tcp
receive_rst flags t = if bit_and flags tcp_rst == 0 then t else record t { state = closed }

-- A packet of the connection, in each state.
unfoldable pub in_state : TcpState → ℕ → ℕ → ℕ → List ℕ → Tcp → Tcp × List Sent
in_state closed flags seq ack payload t = (t, [])
in_state syn_sent flags seq ack payload t =
    let u = record t {
      remote_seq = (seq + 1) % 2 ^ 32;
      local_seq = ack;
      local_ack = (seq + 1) % 2 ^ 32;
    } in
    if bit_and flags (bit_or tcp_syn tcp_ack) == bit_or tcp_syn tcp_ack
    then (record u { state = established }, send u tcp_ack ∷ [])
    else (t, [])
in_state established flags seq ack payload t =
    let (u, first) = receive_data seq payload t in
    let (v, second) = receive_fin flags seq (length payload) u in
    (receive_rst flags v, first ++ second)
in_state fin_wait flags seq ack payload t =
    let u = record t { local_ack = (seq + 1) % 2 ^ 32 } in
    let finished = bit_and flags tcp_fin == 0 in
    if bit_and flags (bit_or tcp_ack tcp_fin) == 0 then (t, []) else (
      record t { local_ack = if finished then t.local_ack else (seq + 1) % 2 ^ 32; state = closed },
      if finished then [] else send u tcp_ack ∷ [],
    )

abbrev pub header_len : List ℕ → ℕ
header_len bytes = get_or bytes 12 0 / 16 * 4

-- A packet that `tcp_handle` does not leave aside: its header is whole, and it is for the connection.
abbrev pub for_connection : ℕ → List ℕ → Tcp → Bool
for_connection src_ip bytes t =
    not (ltb (length bytes) 20)
    && not (ltb (header_len bytes) 20 || ltb (length bytes) (header_len bytes))
    && not (not (net16 bytes 2 == t.local_port) || not (src_ip == t.remote_ip))

unfoldable pub tcp_handle : ℕ → List ℕ → Tcp → Tcp × List Sent
tcp_handle src_ip bytes t =
    let handled =
      in_state t.state (get_or bytes 13 0) (net32 bytes 4) (net32 bytes 8)
        (drop (header_len bytes) bytes) t in
    if for_connection src_ip bytes t then handled else (t, [])

-- The loop of `tcp_receive_data` that takes bytes out of the buffer, with room for `room` more.
unfoldable pub take_out : ℕ → RxBuffer → List ℕ × RxBuffer
take_out zero rx = ([], rx)
take_out (suc room) rx =
    let (bytes, rest) =
      take_out room
        (record { buf = rx.buf; head = rx.head; tail = (rx.tail + 1) % tcp_rx_buf_size }) in
    if rx.tail == rx.head then ([], rx) else (get_or rx.buf rx.tail 0 ∷ bytes, rest)
