-- ===== src/Tcp/Ring.antt =====
-- The receive buffer of kernel/net/net_stack.c holds the bytes that wait, oldest first.
use next_os.Prelude.{
  ℕ, zero, suc, ◌+◌, ◌-◌, ◌%◌, ◌<◌, ◌≡◌, refl, sym, ap, ◌∙◌, inl, inr, false, List, [], ◌∷◌, ◌++◌,
  ◌==◌, length, get_or, set, take, drop, length-set, get_or-set_self, get_or-set_ne, Bool-cases,
  arith,
}
use mathlib.Core.Path.{ap₂}
use next_os.Prelude.Slices.{take-nil}
use next_os.Tcp.{RxBuffer, tcp_rx_buf_size, store, take_out}

-- The `n` bytes from place `i` on, going round at the end of the buffer.
abbrev pub waiting : List ℕ → ℕ → ℕ → List ℕ
waiting buf i zero = []
waiting buf i (suc n) = get_or buf i 0 ∷ waiting buf ((i + 1) % 65536) n

abbrev pub count : RxBuffer → ℕ
count rx = (rx.head + 65536 - rx.tail) % 65536

abbrev pub queued : RxBuffer → List ℕ
queued rx = waiting rx.buf rx.tail (count rx)

pub record IsRing (rx : RxBuffer) : Type 0 where
  pub sized : length rx.buf ≡ tcp_rx_buf_size
  pub head_in : rx.head < tcp_rx_buf_size
  pub tail_in : rx.tail < tcp_rx_buf_size

pub length-waiting : (buf : List ℕ) (i n : ℕ) → length (waiting buf i n) ≡ n
length-waiting buf i zero = refl
length-waiting buf i (suc n) = ap suc (length-waiting buf ((i + 1) % 65536) n)

-- A write behind the last waiting byte adds it to the end.
waiting-set :
    (buf : List ℕ) (b n i w : ℕ)
    → length buf ≡ 65536
    → i < 65536
    → n < 65536
    → w ≡ (i + n) % 65536
    → waiting (set buf w b) i (suc n) ≡ waiting buf i n ++ b ∷ []
waiting-set buf b zero i w size hi hn e =
    let here : w ≡ i = omega arith in
    rw here (ap (λ x. x ∷ []) (get_or-set_self buf i b 0 (omega arith)))
waiting-set buf b (suc n) i w size hi hn e =
    ap₂ ◌∷◌ (get_or-set_ne buf w i b 0 (λ same. absurd (omega arith)))
      (waiting-set buf b n ((i + 1) % 65536) w size (omega arith) (omega arith) (omega arith))

abbrev pushed : RxBuffer → ℕ → RxBuffer
pushed rx b = record { buf = set rx.buf rx.head b; head = (rx.head + 1) % 65536; tail = rx.tail }

pushed-IsRing : (rx : RxBuffer) (b : ℕ) → IsRing rx → IsRing (pushed rx b)
pushed-IsRing rx b v = record {
  sized = length-set rx.buf rx.head b ∙ v.sized;
  head_in = omega arith;
  tail_in = v.tail_in;
}

queued-pushed :
    (rx : RxBuffer) (b : ℕ)
    → IsRing rx
    → ((rx.head + 1) % 65536 == rx.tail) ≡ false
    → queued (pushed rx b) ≡ queued rx ++ b ∷ []
queued-pushed rx b v free =
    let more : ((rx.head + 1) % 65536 + 65536 - rx.tail) % 65536 ≡ suc (count rx) =
      ground (arith, v.head_in, v.tail_in) in
    rw more (
      waiting-set rx.buf b (count rx) rx.tail rx.head v.sized v.tail_in (omega arith)
        (ground (arith, v.head_in, v.tail_in)))

append_one : (xs : List ℕ) (b : ℕ) (ys : List ℕ) → (xs ++ b ∷ []) ++ ys ≡ xs ++ b ∷ ys
append_one [] b ys = refl
append_one (x ∷ xs) b ys = ap (λ q. x ∷ q) (append_one xs b ys)

append_none : (xs : List ℕ) → xs ≡ xs ++ []
append_none [] = refl
append_none (x ∷ xs) = ap (λ q. x ∷ q) (append_none xs)

pub record Stored (rx : RxBuffer) (bytes : List ℕ) (after : RxBuffer) : Type 0 where
  pub valid : IsRing after
  pub bytes_queued : queued after ≡ queued rx ++ take (65535 - count rx) bytes

room_none : (rx : RxBuffer) (bytes : List ℕ) → count rx ≡ 65535 → take (65535 - count rx) bytes ≡ []
room_none rx bytes all =
    let none_left : 65535 - count rx ≡ 0 = omega arith in ap (λ n. take n bytes) none_left

room_one :
    (n : ℕ) (b : ℕ) (bytes : List ℕ)
    → n < 65535
    → take (65535 - n) (b ∷ bytes) ≡ b ∷ take (65535 - suc n) bytes
room_one n b bytes lt =
    let one : 65535 - n ≡ suc (65535 - suc n) = omega arith in ap (λ k. take k (b ∷ bytes)) one

-- The loop stores as many bytes as there is room for.
pub store-Stored : (bytes : List ℕ) (rx : RxBuffer) → IsRing rx → Stored rx bytes (store bytes rx)
unfolding store
store-Stored [] rx v = record {
  valid = v;
  bytes_queued =
      append_none (queued rx) ∙ ap (λ q. queued rx ++ q) (sym (take-nil (65535 - count rx)));
}
store-Stored (b ∷ bytes) rx v = elim (Bool-cases ((rx.head + 1) % 65536 == rx.tail)) [
  | inl full ↦
      let all : count rx ≡ 65535 = ground (arith, v.head_in, v.tail_in) in
      rw full (record {
        valid = v;
        bytes_queued =
            append_none (queued rx) ∙ ap (λ q. queued rx ++ q) (sym (room_none rx (b ∷ bytes) all));
      })
  | inr free ↦
      let rest = store-Stored bytes (pushed rx b) (pushed-IsRing rx b v) in
      let more : count (pushed rx b) ≡ suc (count rx) = ground (arith, v.head_in, v.tail_in) in
      let left : count rx < 65535 = ground (arith, v.head_in, v.tail_in) in
      rw free (record {
        valid = rest.valid;
        bytes_queued =
            rest.bytes_queued
            ∙ ap (λ n. queued (pushed rx b) ++ take (65535 - n) bytes) more
            ∙ ap (λ q. q ++ take (65535 - suc (count rx)) bytes) (queued-pushed rx b v free)
            ∙ append_one (queued rx) b (take (65535 - suc (count rx)) bytes)
            ∙ ap (λ q. queued rx ++ q) (sym (room_one (count rx) b bytes left));
      })
]

pub record TakenOut (room : ℕ) (rx : RxBuffer) (bytes : List ℕ) (after : RxBuffer) : Type 0 where
  pub valid : IsRing after
  pub front : bytes ≡ take room (queued rx)
  pub back : queued after ≡ drop room (queued rx)

-- What `tcp_receive_data` takes out are the oldest bytes.
pub take_out-TakenOut :
    (room : ℕ) (rx : RxBuffer)
    → IsRing rx
    → TakenOut room rx (take_out room rx).0 (take_out room rx).1
unfolding take_out
take_out-TakenOut zero rx v = record { valid = v; front = refl; back = refl }
take_out-TakenOut (suc room) rx v = elim (Bool-cases (rx.tail == rx.head)) [
  | inl empty ↦
      let nothing : count rx ≡ 0 = ground (arith, v.head_in, v.tail_in) in
      rw empty (record { valid = v; front = rw nothing refl; back = rw nothing refl })
  | inr more ↦
      let next : RxBuffer = record { buf = rx.buf; head = rx.head; tail = (rx.tail + 1) % 65536 } in
      let rest =
        take_out-TakenOut room next
          (record { sized = v.sized; head_in = v.head_in; tail_in = omega arith }) in
      let one : count rx ≡ suc (count next) = ground (arith, v.head_in, v.tail_in) in
      rw more (record {
        valid = rest.valid;
        front = rw one (ap (λ q. get_or rx.buf rx.tail 0 ∷ q) rest.front);
        back = rw one rest.back;
      })
]
