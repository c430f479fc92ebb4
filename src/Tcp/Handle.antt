-- ===== src/Tcp/Handle.antt =====
-- What a packet does to an open connection in `tcp_handle` of kernel/net/net_stack.c.
use next_os.Prelude.{
  ℕ, ◌+◌, ◌%◌, ◌^◌, bit_and, ◌≡◌, refl, sym, ap, ◌⊎◌, inl, inr, Bool, ◌&&◌, List, ltb, ◌==◌,
  if◌then◌else◌, length, drop, get_or, Bool-cases,
}
use mathlib.Core.Path.{subst}
use next_os.Tcp.{
  closed, established, Tcp, tcp_fin, tcp_rst, net32, store, receive_data, receive_fin, receive_rst,
  in_state, header_len, for_connection, tcp_handle,
}

abbrev pub payload : List ℕ → List ℕ
payload bytes = drop (header_len bytes) bytes

abbrev pub in_order : ℕ → List ℕ → Tcp → Bool
in_order src_ip bytes t =
    for_connection src_ip bytes t
    && (ltb 0 (length (payload bytes)) && net32 bytes 4 == t.local_ack)

-- What a packet with `bytes` from `seq` on does, when they are in order or not.
pub record Effect (ordered : Bool) (seq : ℕ) (bytes : List ℕ) (t u : Tcp) : Type 0 where
  pub stored : u.rx ≡ (if ordered then store bytes t.rx else t.rx)
  pub next :
      ((u.state ≡ established)
        × (u.local_ack ≡ (if ordered then (seq + length bytes) % 2 ^ 32 else t.local_ack)))
      ⊎ (u.state ≡ closed)

receive_data-Effect :
    (seq : ℕ) (bytes : List ℕ) (t : Tcp)
    → t.state ≡ established
    → Effect (ltb 0 (length bytes) && seq == t.local_ack) seq bytes t (receive_data seq bytes t).0
unfolding receive_data
receive_data-Effect seq bytes t here =
    elim (Bool-cases (ltb 0 (length bytes) && seq == t.local_ack)) [
      | inl ordered ↦ rw ordered (record { stored = refl; next = inl (here, refl) })
      | inr other ↦ rw other (record { stored = refl; next = inl (here, refl) })
    ]

receive_fin-Effect :
    (ordered : Bool) (flags seq len seq' : ℕ) (bytes : List ℕ) (t u : Tcp)
    → Effect ordered seq' bytes t u
    → Effect ordered seq' bytes t (receive_fin flags seq len u).0
unfolding receive_fin
receive_fin-Effect ordered flags seq len seq' bytes t u e =
    elim (Bool-cases (bit_and flags tcp_fin == 0)) [
      | inl clear ↦ rw clear e
      | inr finished ↦ rw finished (record { stored = e.stored; next = inr refl })
    ]

receive_rst-Effect :
    (ordered : Bool) (flags seq : ℕ) (bytes : List ℕ) (t u : Tcp)
    → Effect ordered seq bytes t u
    → Effect ordered seq bytes t (receive_rst flags u)
unfolding receive_rst
receive_rst-Effect ordered flags seq bytes t u e = elim (Bool-cases (bit_and flags tcp_rst == 0)) [
  | inl clear ↦ rw clear e
  | inr reset ↦ rw reset (record { stored = e.stored; next = inr refl })
]

in_state-established :
    (flags seq ack : ℕ) (bytes : List ℕ) (t : Tcp)
    → (in_state established flags seq ack bytes t).0
      ≡ receive_rst flags (receive_fin flags seq (length bytes) (receive_data seq bytes t).0).0
unfolding in_state
in_state-established flags seq ack bytes t = refl

in_state-Effect :
    (flags seq ack : ℕ) (bytes : List ℕ) (t : Tcp)
    → t.state ≡ established
    → Effect
        (ltb 0 (length bytes) && seq == t.local_ack)
        seq
        bytes
        t
        (in_state established flags seq ack bytes t).0
in_state-Effect flags seq ack bytes t here =
    let ordered = ltb 0 (length bytes) && seq == t.local_ack in
    let first = receive_data-Effect seq bytes t here in
    let u = (receive_data seq bytes t).0 in
    let second = receive_fin-Effect ordered flags seq (length bytes) seq bytes t u first in
    subst (Effect ordered seq bytes t) (sym (in_state-established flags seq ack bytes t)) (
      receive_rst-Effect ordered flags seq bytes t (receive_fin flags seq (length bytes) u).0
        second)

pub tcp_handle-Effect :
    (src_ip : ℕ) (bytes : List ℕ) (t : Tcp)
    → t.state ≡ established
    → Effect
        (in_order src_ip bytes t)
        (net32 bytes 4)
        (payload bytes)
        t
        (tcp_handle src_ip bytes t).0
unfolding tcp_handle
tcp_handle-Effect src_ip bytes t here = elim (Bool-cases (for_connection src_ip bytes t)) [
  | inl ours ↦ rw ours (
      subst
        (λ s.
          Effect (ltb 0 (length (payload bytes)) && net32 bytes 4 == t.local_ack) (net32 bytes 4)
            (payload bytes) t
            (in_state s (get_or bytes 13 0) (net32 bytes 4) (net32 bytes 8) (payload bytes) t).0)
        (sym here)
        (in_state-Effect (get_or bytes 13 0) (net32 bytes 4) (net32 bytes 8) (payload bytes) t
          here))
  | inr other ↦ rw other (record { stored = refl; next = inl (here, refl) })
]

pub tcp_handle-closed :
    (src_ip : ℕ) (bytes : List ℕ) (t : Tcp) → t.state ≡ closed → (tcp_handle src_ip bytes t).0 ≡ t
unfolding tcp_handle in_state
tcp_handle-closed src_ip bytes t here = elim (Bool-cases (for_connection src_ip bytes t)) [
  | inl ours ↦ rw ours (
      ap (λ s. (in_state s (get_or bytes 13 0) (net32 bytes 4) (net32 bytes 8) (payload bytes) t).0)
        here)
  | inr other ↦ rw other refl
]
