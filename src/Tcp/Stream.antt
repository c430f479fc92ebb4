-- ===== src/Tcp/Stream.antt =====
-- What `tcp_handle` and `tcp_receive_data` of kernel/net/net_stack.c make of the stream of a sender.
use next_os.Prelude.{
  ℕ, ◌+◌, ◌-◌, ◌%◌, ◌^◌, ◌≤◌, ◌<◌, ◌≡◌, refl, sym, ap, ◌∙◌, ◌⊎◌, inl, inr, true, false, List, [],
  ◌∷◌, ◌++◌, length, take, drop, Bool-cases, arith,
}
use mathlib.Core.Path.{subst, ap₂}
use mathlib.Core.List.{append_assoc}
use next_os.Prelude.Slices.{take_all, take-drop, take-append_drop}
use next_os.Tcp.{closed, established, Tcp, net32, tcp_handle, take_out}
use next_os.Tcp.Ring.{count, queued, IsRing, Stored, store-Stored, take_out-TakenOut}
use next_os.Tcp.Handle.{payload, in_order, Effect, tcp_handle-Effect, tcp_handle-closed}

-- A packet comes in, or the program has room for `room` bytes.
pub data Event : Type 0 where
  packet : (src_ip : ℕ) (bytes : List ℕ) → Event
  read : (room : ℕ) → Event

abbrev pub step : Event → Tcp → Tcp × List ℕ
step (packet src_ip bytes) t = ((tcp_handle src_ip bytes t).0, [])
step (read room) t = (record t { rx = (take_out room t.rx).1 }, (take_out room t.rx).0)

-- The connection after the events, and the bytes that the program has read.
abbrev pub run : List Event → Tcp → Tcp × List ℕ
run [] t = (t, [])
run (e ∷ events) t = ((run events (step e t).0).0, (step e t).1 ++ (run events (step e t).0).1)

-- The sender sends the bytes of `s` from sequence number `isn` on. The packets that come may be lost, be
-- doubled or come in any order, but one that is for the connection has a part of the stream with its
-- number, and one that comes in order fits into the buffer.
abbrev pub Honest : List ℕ → ℕ → Event → Tcp → Type 0
Honest s isn (packet src_ip bytes) t =
    (in_order src_ip bytes t ≡ false)
    ⊎ ((at : ℕ) × (at + length (payload bytes) ≤ length s)
        × (net32 bytes 4 ≡ (isn + at) % 2 ^ 32)
        × (payload bytes ≡ take (length (payload bytes)) (drop at s))
        × (count t.rx + length (payload bytes) ≤ 65535))
Honest s isn (read room) t = Unit

abbrev pub AllHonest : List ℕ → ℕ → List Event → Tcp → Type 0
AllHonest s isn [] t = Unit
AllHonest s isn (e ∷ events) t = Honest s isn e t × AllHonest s isn events (step e t).0

-- `k` bytes of the stream have come: those that are read, and those that wait.
pub record Delivered (s : List ℕ) (isn : ℕ) (past : List ℕ) (t : Tcp) : Type 0 where
  pub arrived : ℕ
  pub inside : arrived ≤ length s
  pub ring : IsRing t.rx
  pub bytes_are : past ++ queued t.rx ≡ take arrived s
  pub acknowledged :
      ((t.state ≡ established) × (t.local_ack ≡ (isn + arrived) % 2 ^ 32)) ⊎ (t.state ≡ closed)

module _ (s : List ℕ) (isn : ℕ) (short : length s < 2 ^ 32) where
  ordered_Delivered :
      (past : List ℕ) (src_ip : ℕ) (bytes : List ℕ) (t : Tcp) (u : Tcp) (at : ℕ)
      (d : Delivered s isn past t)
      → at ≡ d.arrived
      → at + length (payload bytes) ≤ length s
      → net32 bytes 4 ≡ (isn + at) % 2 ^ 32
      → payload bytes ≡ take (length (payload bytes)) (drop at s)
      → count t.rx + length (payload bytes) ≤ 65535
      → Effect true (net32 bytes 4) (payload bytes) t u
      → Delivered s isn past u
  ordered_Delivered past src_ip bytes t u at d same_place inside number part fits e =
      let data_len = length (payload bytes) in
      let put = store-Stored (payload bytes) t.rx d.ring in
      let stored : Stored t.rx (payload bytes) u.rx =
        subst (Stored t.rx (payload bytes)) (sym e.stored) put in
      let whole : take (65535 - count t.rx) (payload bytes) ≡ payload bytes =
        take_all (65535 - count t.rx) (payload bytes) (omega arith) in
      record {
        arrived = at + data_len;
        inside = inside;
        ring = stored.valid;
        bytes_are =
            ap (λ q. past ++ q) (stored.bytes_queued ∙ ap (λ q. queued t.rx ++ q) (whole ∙ part))
            ∙ sym (append_assoc past (queued t.rx) (take data_len (drop at s)))
            ∙ ap (λ q. q ++ take data_len (drop at s))
                (d.bytes_are ∙ ap (λ k. take k s) (sym same_place))
            ∙ take-append_drop at data_len s;
        acknowledged = elim e.next [
          | inl (still, ack) ↦ inl (still, omega (arith, ack, number))
          | inr over ↦ inr over
        ];
      }

  other_Delivered :
      (past bytes : List ℕ) (seq : ℕ) (t u : Tcp) (d : Delivered s isn past t)
      → t.local_ack ≡ (isn + d.arrived) % 2 ^ 32
      → Effect false seq bytes t u
      → Delivered s isn past u
  other_Delivered past bytes seq t u d ack e = record {
    arrived = d.arrived;
    inside = d.inside;
    ring = subst IsRing (sym e.stored) d.ring;
    bytes_are = ap (λ rx. past ++ queued rx) e.stored ∙ d.bytes_are;
    acknowledged = elim e.next [
      | inl (still, kept) ↦ inl (still, kept ∙ ack)
      | inr over ↦ inr over
    ];
  }

  in_order-number :
      (src_ip : ℕ) (bytes : List ℕ) (t : Tcp)
      → in_order src_ip bytes t ≡ true
      → net32 bytes 4 ≡ t.local_ack
  in_order-number src_ip bytes t e = ground (arith, e)

  packet-Delivered :
      (past : List ℕ) (src_ip : ℕ) (bytes : List ℕ) (t : Tcp)
      → Honest s isn (packet src_ip bytes) t
      → Delivered s isn past t
      → Delivered s isn past (tcp_handle src_ip bytes t).0
  packet-Delivered past src_ip bytes t h d =
      let u = (tcp_handle src_ip bytes t).0 in
      let seq = net32 bytes 4 in
      elim d.acknowledged [
        | inl (here, ack) ↦
            let effect = tcp_handle-Effect src_ip bytes t here in
            elim (Bool-cases (in_order src_ip bytes t)) [
              | inl ordered ↦
                  let e : Effect true seq (payload bytes) t u =
                    subst (λ o. Effect o seq (payload bytes) t u) ordered effect in
                  elim h [
                    | inl not_ordered ↦ absurd (ground (arith, ordered, not_ordered))
                    | inr (at, inside, number, part, fits) ↦
                        let same_place : at ≡ d.arrived =
                          omega (arith, d.inside, in_order-number src_ip bytes t ordered) in
                        ordered_Delivered past src_ip bytes t u at d same_place inside number part
                          fits e
                  ]
              | inr other ↦
                  other_Delivered past (payload bytes) seq t u d ack
                    (subst (λ o. Effect o seq (payload bytes) t u) other effect)
            ]
        | inr over ↦ subst (Delivered s isn past) (sym (tcp_handle-closed src_ip bytes t over)) d
      ]

  read-Delivered :
      (past : List ℕ) (room : ℕ) (t : Tcp)
      → Delivered s isn past t
      → Delivered s isn (past ++ (step (read room) t).1) (step (read room) t).0
  read-Delivered past room t d =
      let taken = take_out-TakenOut room t.rx d.ring in
      record {
        arrived = d.arrived;
        inside = d.inside;
        ring = taken.valid;
        bytes_are =
            ap₂ (λ x y. (past ++ x) ++ y) taken.front taken.back
            ∙ append_assoc past (take room (queued t.rx)) (drop room (queued t.rx))
            ∙ ap (λ q. past ++ q) (take-drop room (queued t.rx))
            ∙ d.bytes_are;
        acknowledged = d.acknowledged;
      }

  no_bytes : (past : List ℕ) → past ++ [] ≡ past
  no_bytes [] = refl
  no_bytes (b ∷ past) = ap (λ q. b ∷ q) (no_bytes past)

  step-Delivered :
      (past : List ℕ) (e : Event) (t : Tcp)
      → Honest s isn e t
      → Delivered s isn past t
      → Delivered s isn (past ++ (step e t).1) (step e t).0
  step-Delivered past (packet src_ip bytes) t h d =
      subst (λ q. Delivered s isn q (tcp_handle src_ip bytes t).0) (sym (no_bytes past))
        (packet-Delivered past src_ip bytes t h d)
  step-Delivered past (read room) t h d = read-Delivered past room t d

  run_from :
      (past : List ℕ) (events : List Event) (t : Tcp)
      → AllHonest s isn events t
      → Delivered s isn past t
      → Delivered s isn (past ++ (run events t).1) (run events t).0
  run_from past [] t h d = subst (λ q. Delivered s isn q t) (sym (no_bytes past)) d
  run_from past (e ∷ events) t (h, rest) d =
      let next = step-Delivered past e t h d in
      let more = run_from (past ++ (step e t).1) events (step e t).0 rest next in
      subst (λ q. Delivered s isn q (run (e ∷ events) t).0)
        (append_assoc past (step e t).1 (run events (step e t).0).1) more

  -- From an established connection with an empty buffer that waits for the first byte of a stream of
  -- less than 2^32 bytes: whatever packets come and whenever the program reads, what it has read,
  -- together with what waits in the buffer, is the beginning of the stream, and the number of the next
  -- acknowledgement is that of the byte behind it unless the connection is closed. The packets that come
  -- in order hold a part of the stream with its number and fit into the buffer.
  pub run-Delivered :
      (events : List Event) (t : Tcp)
      → t.state ≡ established
      → IsRing t.rx
      → queued t.rx ≡ []
      → t.local_ack ≡ isn % 2 ^ 32
      → AllHonest s isn events t
      → Delivered s isn (run events t).1 (run events t).0
  run-Delivered events t here ring empty ack h = run_from [] events t h (record {
    arrived = 0;
    inside = omega arith;
    ring = ring;
    bytes_are = empty;
    acknowledged = inl (here, omega arith);
  })
