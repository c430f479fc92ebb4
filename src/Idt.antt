-- ===== src/Idt.antt =====
-- kernel/arch/x86_64/idt.c, the interrupt table and the dispatch of interrupts. The stubs of isr.S are
-- parameters: their addresses by number. A handler is a value that `isr_handler` passes on with the
-- error code. The bytes written to ports are a list of ports and bytes, in order.
pub mod Gates
pub mod Dispatch
mod Tests
use next_os.Prelude.{
  ℕ, zero, suc, ◌+◌, ◌-◌, ◌*◌, ◌/◌, ◌%◌, ◌^◌, Bool, true, false, ◌&&◌, Option, none, some, List, [],
  ◌∷◌, ◌++◌, ltb, leb, ◌==◌, if◌then◌else◌, length, get_or, set, replicate,
}
use next_os.Prelude.Outcome.{Outcome, fault, error, done}

-- `struct idt_entry`
pub record Gate : Type 0 where
  pub offset_low : ℕ
  pub selector : ℕ
  pub ist : ℕ
  pub type_attr : ℕ
  pub offset_mid : ℕ
  pub offset_high : ℕ
  pub zero_field : ℕ

abbrev pub idt_entry_count : ℕ
idt_entry_count = 256

unfoldable pub gate_of : ℕ → ℕ → ℕ → Gate
gate_of handler sel flags = record {
  offset_low = handler % 2 ^ 16;
  selector = sel;
  ist = 0;
  type_attr = flags;
  offset_mid = handler / 2 ^ 16 % 2 ^ 16;
  offset_high = handler / 2 ^ 32 % 2 ^ 32;
  zero_field = 0;
}

-- The two tables.
pub record Idt (H : Type 0) : Type 0 where
  pub idt_entries : List Gate
  pub irq_handlers : List (Option H)

unfoldable pub idt_set_gate : List Gate → ℕ → ℕ → ℕ → ℕ → List Gate
idt_set_gate gates idx handler sel flags = set gates idx (gate_of handler sel flags)

-- `n` calls of `idt_set_gate` in `idt_init`, for the vectors from `idx` and the stubs from `i` on.
unfoldable pub set_gates : ℕ → (ℕ → ℕ) → ℕ → ℕ → List Gate → List Gate
set_gates zero stub idx i gates = gates
set_gates (suc n) stub idx i gates =
    set_gates n stub (idx + 1) (i + 1) (idt_set_gate gates idx (stub i) 0x08 0x8e)

-- `pic_remap`; `io_wait` is left out.
abbrev pub pic_remap : List (ℕ × ℕ)
pic_remap =
    (0x20, 0x11)
    ∷ (0xa0, 0x11)
    ∷ (0x21, 0x20)
    ∷ (0xa1, 0x28)
    ∷ (0x21, 0x04)
    ∷ (0xa1, 0x02)
    ∷ (0x21, 0x01)
    ∷ (0xa1, 0x01)
    ∷ (0x21, 0x00)
    ∷ (0xa1, 0x00)
    ∷ []

-- `idt_init`, up to the loading of the table
unfoldable pub idt_init : {H : Type 0} → (ℕ → ℕ) → (ℕ → ℕ) → Idt H → Idt H × List (ℕ × ℕ)
idt_init isr irq t =
    let exceptions = set_gates 32 isr 0 0 t.idt_entries in
    (
      record {
        idt_entries = set_gates 16 irq 32 0 exceptions;
        irq_handlers = replicate idt_entry_count none;
      },
      pic_remap,
    )

-- A vector behind the table is written outside of it.
unfoldable pub irq_register_handler : {H : Type 0} → Idt H → ℕ → H → Outcome (Idt H)
irq_register_handler t irq handler =
    if leb idt_entry_count irq
    then fault
    else done (record t { irq_handlers = set t.irq_handlers irq (some handler) })

-- What `isr_handler` does, in order: it calls a handler with the vector and the error code, or writes a
-- byte to a port.
pub data Action (H : Type 0) : Type 0 where
  call : H → ℕ → ℕ → Action H
  outb : ℕ → ℕ → Action H

-- The writes at the end of `isr_handler`.
unfoldable pub end_of_interrupt : {H : Type 0} → ℕ → List (Action H)
end_of_interrupt irq_num =
    let slave = if leb 40 irq_num then outb 0xa0 0x20 ∷ [] else [] in
    if leb 32 irq_num && ltb irq_num 48 then slave ++ (outb 0x20 0x20 ∷ []) else []

unfoldable pub call_handler : {H : Type 0} → Option H → ℕ → ℕ → List (Action H)
call_handler none irq_num error_code = []
call_handler (some handler) irq_num error_code = call handler irq_num error_code ∷ []

unfoldable pub isr_handler : {H : Type 0} → Idt H → ℕ → ℕ → List (Action H)
isr_handler t irq_num error_code =
    call_handler (get_or t.irq_handlers irq_num none) irq_num error_code ++ end_of_interrupt irq_num
