-- ===== src/Idt/Tests.antt =====
-- A table without gates and handlers.
use next_os.Prelude.{
  ℕ, ◌+◌, ◌≤◌, ◌<◌, ◌≡◌, ◌≢◌, ◌⊎◌, Option, none, length-replicate, get_or, replicate, arith,
}
use next_os.Prelude.Outcome.{fault, done}
use next_os.Idt.{Gate, Idt, idt_entry_count, idt_init, irq_register_handler, isr_handler}
use next_os.Idt.Gates.{LeadsTo, idt_init-LeadsTo}
use next_os.Idt.Dispatch.{HandledBy, irq_register_handler-cases}

abbrev no_gate : Gate
no_gate = record {
  offset_low = 0;
  selector = 0;
  ist = 0;
  type_attr = 0;
  offset_mid = 0;
  offset_high = 0;
  zero_field = 0;
}

-- A handler is named by a number.
abbrev tables : Idt ℕ
tables = record {
  idt_entries = replicate idt_entry_count no_gate;
  irq_handlers = replicate idt_entry_count none;
}

abbrev isr : ℕ → ℕ
isr i = 0x100000

abbrev irq : ℕ → ℕ
irq i = 0xffffffff80200000

idt_init-LeadsTo_example :
    ((k : ℕ) → k < 32 → LeadsTo (get_or (idt_init isr irq tables).0.idt_entries k no_gate) (isr k))
    × ((k : ℕ)
        → k < 16
        → LeadsTo (get_or (idt_init isr irq tables).0.idt_entries (32 + k) no_gate) (irq k))
    × ((k : ℕ)
        → 48 ≤ k
        → get_or (idt_init isr irq tables).0.idt_entries k no_gate
          ≡ get_or tables.idt_entries k no_gate)
idt_init-LeadsTo_example =
    idt_init-LeadsTo isr irq tables no_gate (length-replicate 256 no_gate) (λ i. omega arith)
      (λ i. omega arith)

irq_register_handler-cases_example :
    ((idt_entry_count ≤ 33) × (irq_register_handler tables 33 5 ≡ fault))
    ⊎ ((33 < idt_entry_count)
        × ((t' : Idt ℕ) × (irq_register_handler tables 33 5 ≡ done t')
            × ((error_code : ℕ) → HandledBy 5 33 error_code (isr_handler t' 33 error_code))
            × ((vector error_code : ℕ)
                → 33 ≢ vector
                → isr_handler t' vector error_code ≡ isr_handler tables vector error_code)))
irq_register_handler-cases_example =
    irq_register_handler-cases tables 33 5 (length-replicate {A = Option ℕ} 256 none)
