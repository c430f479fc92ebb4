-- ===== src/Keyboard/Refine.antt =====
-- The driver as its readers see it: the modifiers and a bounded queue of events.
use next_os.Prelude.{
  ℕ, ◌≡◌, refl, Option, none, some, List, [], ◌∷◌, ltb, if◌then◌else◌, arith, Bool-cases, inl, inr,
}
use next_os.Keyboard.{
  KeyEvent, Modifiers, Keyboard, decode, push_event, keyboard_irq, keyboard_poll,
  keyboard_set_layout,
}
use next_os.Keyboard.Layouts.{layout_count}
use next_os.Keyboard.Ring.{
  IsValid, contents, enqueue, dequeue, push_event-IsValid, push_event-enqueue,
  keyboard_poll-IsValid, keyboard_poll-dequeue,
}

-- What happens to the driver: an interrupt with its byte, a call of `keyboard_poll`, or a call of
-- `keyboard_set_layout`.
pub data Call : Type 0 where
  interrupt : ℕ → Call
  poll : Call
  choose_layout : ℕ → Call

-- The specification's state.
pub record View : Type 0 where
  pub modifiers : Modifiers
  pub queue : List KeyEvent

abbrev pub view : Keyboard → View
view k = record { modifiers = k.modifiers; queue = contents k }

pub spec_step : View → Call → View × Option KeyEvent
unfolding enqueue dequeue
spec_step v (interrupt sc) =
    let (m, ev) = decode v.modifiers sc in
    (record { modifiers = m; queue = enqueue v.queue ev }, none)
spec_step v poll = let (ev, q) = dequeue v.queue in (record v { queue = q }, ev)
spec_step v (choose_layout l) = (
  if ltb l layout_count
      then record v { modifiers = record (v.modifiers) { current_layout = l } }
      else v,
  none,
)

unfoldable pub step : Keyboard → Call → Keyboard × Option KeyEvent
step k (interrupt sc) = (keyboard_irq k sc, none)
step k poll = keyboard_poll k
step k (choose_layout l) = (keyboard_set_layout k l, none)

pub spec_run : View → List Call → List (Option KeyEvent)
spec_run v [] = []
spec_run v (c ∷ cs) = let (v', r) = spec_step v c in r ∷ spec_run v' cs

unfoldable pub run : Keyboard → List Call → List (Option KeyEvent)
run k [] = []
run k (c ∷ cs) = let (k', r) = step k c in r ∷ run k' cs

pub step-IsValid : (k : Keyboard) (c : Call) → IsValid k → IsValid (step k c).0
unfolding step keyboard_irq keyboard_set_layout
step-IsValid k (interrupt sc) v =
    push_event-IsValid (record k { modifiers = (decode k.modifiers sc).0 })
      (decode k.modifiers sc).1
      (record { sized = v.sized; read_in = v.read_in; write_in = v.write_in })
step-IsValid k poll v = keyboard_poll-IsValid k v
step-IsValid k (choose_layout l) v = ground arith

modifiers-push_event :
    (k : Keyboard) (ev : Option KeyEvent) → (push_event k ev).modifiers ≡ k.modifiers
unfolding push_event
modifiers-push_event k none = refl
modifiers-push_event k (some ev) = ground arith

modifiers-keyboard_poll : (k : Keyboard) → (keyboard_poll k).0.modifiers ≡ k.modifiers
unfolding keyboard_poll
modifiers-keyboard_poll k = ground arith

-- One call does to the view what the specification does.
step-spec_step :
    (k : Keyboard) (c : Call) → IsValid k → (view (step k c).0, (step k c).1) ≡ spec_step (view k) c
unfolding step spec_step keyboard_irq keyboard_set_layout
step-spec_step k (interrupt sc) v =
    let m = (decode k.modifiers sc).0 in
    let ev = (decode k.modifiers sc).1 in
    let k' : Keyboard = record k { modifiers = m } in
    let v' : IsValid k' = record { sized = v.sized; read_in = v.read_in; write_in = v.write_in } in
    λ i. (
      record { modifiers = modifiers-push_event k' ev i; queue = push_event-enqueue k' ev v' i },
      none,
    )
step-spec_step k poll v = λ i. (
  record { modifiers = modifiers-keyboard_poll k i; queue = (keyboard_poll-dequeue k v i).1 },
  (keyboard_poll-dequeue k v i).0,
)
step-spec_step k (choose_layout l) v = elim (Bool-cases (ltb l layout_count)) [
  | inl known ↦ rw (known, keyboard_set_layout)
  | inr unknown ↦ rw (unknown, keyboard_set_layout)
]

-- No sequence of interrupts and calls tells the driver from the queue of at most 255 events: every
-- call returns what the specification returns.
pub run-spec_run : (cs : List Call) (k : Keyboard) → IsValid k → run k cs ≡ spec_run (view k) cs
unfolding run spec_run
run-spec_run [] k v = refl
run-spec_run (c ∷ cs) k v =
    rw (run-spec_run cs (step k c).0 (step-IsValid k c v), ← step-spec_step k c v)
