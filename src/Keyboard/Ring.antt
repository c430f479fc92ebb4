-- ===== src/Keyboard/Ring.antt =====
-- The circular key buffer holds the events that wait, oldest first.
use next_os.Prelude.{
  ℕ, zero, suc, ◌+◌, ◌-◌, ◌%◌, ◌<◌, ◌≡◌, refl, ap, inl, inr, Option, none, some, List, [], ◌∷◌,
  ◌++◌, false, arith, ◌==◌, if◌then◌else◌, length, get_or, set, length-set, get_or-set_self,
  get_or-set_ne, Bool-cases,
}
use mathlib.Core.Path.{ap₂}
use next_os.Keyboard.{KeyEvent, Keyboard, key_buf_size, no_event, push_event, keyboard_poll}

-- The `n` events from place `i` on, going round at the end of the buffer.
abbrev pub waiting : List KeyEvent → ℕ → ℕ → List KeyEvent
waiting buffer i zero = []
waiting buffer i (suc n) = get_or buffer i no_event ∷ waiting buffer ((i + 1) % 256) n

-- How many events wait, from the two indices.
abbrev pub count : Keyboard → ℕ
count k = (k.write_idx + 256 - k.read_idx) % 256

abbrev pub contents : Keyboard → List KeyEvent
contents k = waiting k.key_buffer k.read_idx (count k)

pub record IsValid (k : Keyboard) : Type 0 where
  pub sized : length k.key_buffer ≡ key_buf_size
  pub read_in : k.read_idx < key_buf_size
  pub write_in : k.write_idx < key_buf_size

pub length-waiting : (buffer : List KeyEvent) (i n : ℕ) → length (waiting buffer i n) ≡ n
length-waiting buffer i zero = refl
length-waiting buffer i (suc n) = ap suc (length-waiting buffer ((i + 1) % 256) n)

-- A write behind the last waiting event adds it to the end.
waiting-set :
    (buffer : List KeyEvent) (ev : KeyEvent) (n i w : ℕ)
    → length buffer ≡ 256
    → i < 256
    → n < 256
    → w ≡ (i + n) % 256
    → waiting (set buffer w ev) i (suc n) ≡ waiting buffer i n ++ ev ∷ []
waiting-set buffer ev zero i w size hi hn e =
    let here : w ≡ i = omega arith in
    rw here (ap (λ x. x ∷ []) (get_or-set_self buffer i ev no_event (omega arith)))
waiting-set buffer ev (suc n) i w size hi hn e =
    ap₂ ◌∷◌ (get_or-set_ne buffer w i ev no_event (λ same. absurd (omega arith)))
      (waiting-set buffer ev n ((i + 1) % 256) w size (omega arith) (omega arith) (omega arith))

-- The queue of the events, which holds at most 255 of them.
unfoldable pub enqueue : List KeyEvent → Option KeyEvent → List KeyEvent
enqueue q none = q
enqueue q (some ev) = if length q == 255 then q else q ++ ev ∷ []

unfoldable pub dequeue : List KeyEvent → Option KeyEvent × List KeyEvent
dequeue [] = (none, [])
dequeue (ev ∷ q) = (some ev, q)

pub push_event-IsValid :
    (k : Keyboard) (ev : Option KeyEvent) → IsValid k → IsValid (push_event k ev)
unfolding push_event
push_event-IsValid k none v = v
push_event-IsValid k (some ev) v = ground (arith, length-set k.key_buffer k.write_idx ev)

pub push_event-enqueue :
    (k : Keyboard) (ev : Option KeyEvent)
    → IsValid k
    → contents (push_event k ev) ≡ enqueue (contents k) ev
unfolding push_event enqueue
push_event-enqueue k none v = refl
push_event-enqueue k (some ev) v = elim (Bool-cases ((k.write_idx + 1) % 256 == k.read_idx)) [
  | inl full ↦
      let all : count k ≡ 255 = ground arith in
      rw (full, length-waiting k.key_buffer k.read_idx (count k), all)
  | inr free ↦
      let some_left : (count k == 255) ≡ false = ground arith in
      let more : ((k.write_idx + 1) % 256 + 256 - k.read_idx) % 256 ≡ suc (count k) =
        ground arith in
      rw (free, length-waiting k.key_buffer k.read_idx (count k), some_left, more)
        (waiting-set k.key_buffer ev (count k) k.read_idx k.write_idx v.sized v.read_in
          (omega arith) (ground arith))
]

pub keyboard_poll-IsValid : (k : Keyboard) → IsValid k → IsValid (keyboard_poll k).0
unfolding keyboard_poll
keyboard_poll-IsValid k v = ground arith

waiting-head :
    (buffer : List KeyEvent) (i n m : ℕ)
    → n ≡ suc m
    → waiting buffer i n ≡ get_or buffer i no_event ∷ waiting buffer ((i + 1) % 256) m
waiting-head buffer i n m e = rw e

pub keyboard_poll-dequeue :
    (k : Keyboard)
    → IsValid k
    → ((keyboard_poll k).1, contents (keyboard_poll k).0) ≡ dequeue (contents k)
unfolding keyboard_poll dequeue
keyboard_poll-dequeue k v = elim (Bool-cases (k.read_idx == k.write_idx)) [
  | inl empty ↦ let nothing : count k ≡ 0 = ground arith in rw (empty, nothing)
  | inr more ↦
      let rest = (k.write_idx + 256 - (k.read_idx + 1) % 256) % 256 in
      let one : count k ≡ suc rest = ground arith in
      rw (more, waiting-head k.key_buffer k.read_idx (count k) rest one)
]
