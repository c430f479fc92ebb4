-- ===== src/Idt/Dispatch.antt =====
-- `irq_register_handler` and `isr_handler` of kernel/arch/x86_64/idt.c.
use next_os.Prelude.{
  ℕ, ◌<◌, ◌≤◌, ◌≡◌, refl, ap, ◌≢◌, ◌⊎◌, inl, inr, true, false, none, some, List, [], ◌∷◌, ◌++◌,
  length, set, leb, ltb, ◌&&◌, get_or-set_self, get_or-set_ne, arith,
}
use native.Mathlib.Decide.{dec_le, dec_lt}
use next_os.Prelude.Outcome.{fault, done}
use next_os.Idt.{
  Idt, Action, call, outb, idt_entry_count, irq_register_handler, end_of_interrupt, call_handler,
  isr_handler,
}

-- What the interrupt controllers have to be told at the end of an interrupt: nothing for an exception or
-- a software interrupt, the first controller for its eight, and for those of the second controller that
-- one and then the first.
pub data Acknowledges {H : Type 0} (vector : ℕ) : List (Action H) → Type 0 where
  exception : vector < 32 → Acknowledges vector []
  software : 48 ≤ vector → Acknowledges vector []
  master : 32 ≤ vector → vector < 40 → Acknowledges vector (outb 32 32 ∷ [])
  slave : 40 ≤ vector → vector < 48 → Acknowledges vector (outb 160 32 ∷ outb 32 32 ∷ [])

end_of_interrupt-Acknowledges :
    {H : Type 0} (vector : ℕ) → Acknowledges {H = H} vector (end_of_interrupt vector)
unfolding end_of_interrupt
end_of_interrupt-Acknowledges vector = elim (dec_lt vector 32) [
  | yes low ↦
      let out : (leb 32 vector && ltb vector 48) ≡ false = ground arith in rw out (exception low)
  | no from_32 ↦ elim (dec_lt vector 40) [
    | yes below_40 ↦
        let hardware : (leb 32 vector && ltb vector 48) ≡ true = ground arith in
        let first : leb 40 vector ≡ false = ground arith in
        rw (hardware, first) (master (omega arith) below_40)
    | no from_40 ↦ elim (dec_lt vector 48) [
      | yes below_48 ↦
          let hardware : (leb 32 vector && ltb vector 48) ≡ true = ground arith in
          let second : leb 40 vector ≡ true = ground arith in
          rw (hardware, second) (slave (omega arith) below_48)
      | no from_48 ↦
          let out : (leb 32 vector && ltb vector 48) ≡ false = ground arith in
          rw out (software (omega arith))
    ]
  ]
]

-- The handling of an interrupt by a handler: it is called, and then the interrupt is acknowledged.
pub record HandledBy {H : Type 0} (handler : H) (vector error_code : ℕ) (actions : List (Action H))
    : Type 0 where
  pub acknowledgement : List (Action H)
  pub acknowledges : Acknowledges vector acknowledgement
  pub in_order : actions ≡ call handler vector error_code ∷ acknowledgement

module _ {H : Type 0} (t : Idt H) (irq : ℕ) (handler : H) where
  -- The table with a handler.
  abbrev registered : Idt H
  registered = record t { irq_handlers = set t.irq_handlers irq (some handler) }

  runs :
      (error_code : ℕ)
      → irq < length t.irq_handlers
      → isr_handler registered irq error_code ≡ call handler irq error_code ∷ end_of_interrupt irq
  unfolding isr_handler call_handler
  runs error_code inside =
      ap (λ h. call_handler h irq error_code ++ end_of_interrupt irq)
        (get_or-set_self t.irq_handlers irq (some handler) none inside)

  stays :
      (vector error_code : ℕ)
      → irq ≢ vector
      → isr_handler registered vector error_code ≡ isr_handler t vector error_code
  unfolding isr_handler
  stays vector error_code apart =
      ap (λ h. call_handler h vector error_code ++ end_of_interrupt vector)
        (get_or-set_ne t.irq_handlers irq vector (some handler) none apart)

  -- `irq_register_handler` on a table of 256 handlers writes outside of it for a vector of 256 or more.
  -- Otherwise an interrupt of the vector calls the handler and then is acknowledged: with one write to
  -- the first controller for 32 to 39, one to the second and then one to the first for 40 to 47, and none
  -- for other vectors; and an interrupt of another vector does what it did before.
  pub irq_register_handler-cases :
      length t.irq_handlers ≡ idt_entry_count
      → ((idt_entry_count ≤ irq) × (irq_register_handler t irq handler ≡ fault))
        ⊎ ((irq < idt_entry_count)
            × ((t' : Idt H) × (irq_register_handler t irq handler ≡ done t')
                × ((error_code : ℕ)
                    → HandledBy handler irq error_code (isr_handler t' irq error_code))
                × ((vector error_code : ℕ)
                    → irq ≢ vector
                    → isr_handler t' vector error_code ≡ isr_handler t vector error_code)))
  unfolding irq_register_handler
  irq_register_handler-cases table = elim (dec_le idt_entry_count irq) [
    | yes past ↦
        let test : leb idt_entry_count irq ≡ true = ground arith in inl (past, rw test refl)
    | no inside ↦
        let test : leb idt_entry_count irq ≡ false = ground arith in
        inr (
          omega arith,
          (
            registered,
            rw test refl,
            λ error_code. record {
              acknowledgement = end_of_interrupt irq;
              acknowledges = end_of_interrupt-Acknowledges irq;
              in_order = runs error_code (omega (arith, table));
            },
            stays,
          ),
        )
  ]
