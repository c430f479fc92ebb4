-- ===== src/Idt/Gates.antt =====
-- The gates of `idt_init` of kernel/arch/x86_64/idt.c, as the processor reads them.
use next_os.Prelude.{
  ℕ, zero, suc, ◌+◌, ◌*◌, ◌^◌, ◌≤◌, ◌<◌, ◌≡◌, refl, sym, ap, ◌∙◌, ◌⊎◌, inl, inr, List, length,
  get_or, set, length-set, get_or-set_self, get_or-set_ne, arith,
}
use mathlib.Core.Path.{subst}
use next_os.Idt.{Gate, gate_of, Idt, idt_entry_count, idt_set_gate, set_gates, idt_init}

-- The address that a gate leads to.
abbrev pub gate_address : Gate → ℕ
gate_address g = g.offset_low + g.offset_mid * 2 ^ 16 + g.offset_high * 2 ^ 32

-- A gate for a stub of the kernel's code, which the processor enters with interrupts off.
pub record LeadsTo (g : Gate) (address : ℕ) : Type 0 where
  pub to_stub : gate_address g ≡ address
  pub in_kernel : g.selector ≡ 0x08
  pub interrupt_gate : g.type_attr ≡ 0x8e
  pub same_stack : g.ist ≡ 0

gate_of-LeadsTo : (address : ℕ) → address < 2 ^ 64 → LeadsTo (gate_of address 0x08 0x8e) address
unfolding gate_of
gate_of-LeadsTo address small = record {
  to_stub = omega arith;
  in_kernel = refl;
  interrupt_gate = refl;
  same_stack = refl;
}

module _ (stub : ℕ → ℕ) (d : Gate) where
  length-set_gates :
      (n idx i : ℕ) (gates : List Gate) → length (set_gates n stub idx i gates) ≡ length gates
  unfolding set_gates idt_set_gate
  length-set_gates zero idx i gates = refl
  length-set_gates (suc n) idx i gates =
      length-set_gates n (idx + 1) (i + 1) (set gates idx (gate_of (stub i) 0x08 0x8e))
      ∙ length-set gates idx (gate_of (stub i) 0x08 0x8e)

  -- A gate in front of those that are set, or behind them, stays.
  set_gates-others :
      (n idx i k : ℕ) (gates : List Gate)
      → (k < idx) ⊎ (idx + n ≤ k)
      → get_or (set_gates n stub idx i gates) k d ≡ get_or gates k d
  unfolding set_gates idt_set_gate
  set_gates-others zero idx i k gates h = refl
  set_gates-others (suc n) idx i k gates (inl before) =
      set_gates-others n (idx + 1) (i + 1) k (set gates idx (gate_of (stub i) 0x08 0x8e))
        (inl (omega arith))
      ∙ get_or-set_ne gates idx k (gate_of (stub i) 0x08 0x8e) d (omega arith)
  set_gates-others (suc n) idx i k gates (inr behind) =
      set_gates-others n (idx + 1) (i + 1) k (set gates idx (gate_of (stub i) 0x08 0x8e))
        (inr (omega arith))
      ∙ get_or-set_ne gates idx k (gate_of (stub i) 0x08 0x8e) d (omega arith)

  set_gates-set :
      (n idx i j : ℕ) (gates : List Gate)
      → j < n
      → idx + n ≤ length gates
      → get_or (set_gates n stub idx i gates) (idx + j) d ≡ gate_of (stub (i + j)) 0x08 0x8e
  unfolding set_gates idt_set_gate
  set_gates-set zero idx i j gates lt room = absurd (omega arith)
  set_gates-set (suc n) idx i zero gates lt room =
      let here : idx + 0 ≡ idx = omega arith in
      let same_stub : i ≡ i + 0 = omega arith in
      set_gates-others n (idx + 1) (i + 1) (idx + 0) (set gates idx (gate_of (stub i) 0x08 0x8e))
        (inl (omega arith))
      ∙ ap (λ q. get_or (set gates idx (gate_of (stub i) 0x08 0x8e)) q d) here
      ∙ get_or-set_self gates idx (gate_of (stub i) 0x08 0x8e) d (omega arith)
      ∙ ap (λ q. gate_of (stub q) 0x08 0x8e) same_stub
  set_gates-set (suc n) idx i (suc j) gates lt room =
      let further : idx + suc j ≡ idx + 1 + j = omega arith in
      let next_stub : i + 1 + j ≡ i + suc j = omega arith in
      let made = set gates idx (gate_of (stub i) 0x08 0x8e) in
      ap (λ q. get_or (set_gates n stub (idx + 1) (i + 1) made) q d) further
      ∙ set_gates-set n (idx + 1) (i + 1) j made (omega arith)
          (omega (arith, length-set gates idx (gate_of (stub i) 0x08 0x8e)))
      ∙ ap (λ q. gate_of (stub q) 0x08 0x8e) next_stub

-- After `idt_init` on a table of 256 entries, the gate of each exception 0 to 31 and of each hardware
-- interrupt 32 to 47 leads to its stub, in the kernel's code segment and as an interrupt gate, whatever
-- the 64 bits of the stub's address are; and the other gates are as they were.
pub idt_init-LeadsTo :
    {H : Type 0} (isr irq : ℕ → ℕ) (t : Idt H) (d : Gate)
    → length t.idt_entries ≡ idt_entry_count
    → ((i : ℕ) → isr i < 2 ^ 64)
    → ((i : ℕ) → irq i < 2 ^ 64)
    → ((k : ℕ) → k < 32 → LeadsTo (get_or (idt_init isr irq t).0.idt_entries k d) (isr k))
      × ((k : ℕ) → k < 16 → LeadsTo (get_or (idt_init isr irq t).0.idt_entries (32 + k) d) (irq k))
      × ((k : ℕ)
          → 48 ≤ k
          → get_or (idt_init isr irq t).0.idt_entries k d ≡ get_or t.idt_entries k d)
unfolding idt_init
idt_init-LeadsTo isr irq t d table isr_small irq_small =
    let first = set_gates 32 isr 0 0 t.idt_entries in
    let long = length-set_gates isr d 32 0 0 t.idt_entries in
    (
      λ k lt.
          let zero_on : 0 + k ≡ k = omega arith in
          let at : get_or (set_gates 16 irq 32 0 first) k d ≡ gate_of (isr k) 0x08 0x8e =
            set_gates-others irq d 16 32 0 k first (inl lt)
            ∙ ap (λ q. get_or first q d) (sym zero_on)
            ∙ set_gates-set isr d 32 0 0 k t.idt_entries lt (omega (arith, table))
            ∙ ap (λ q. gate_of (isr q) 0x08 0x8e) zero_on in
          subst (λ g. LeadsTo g (isr k)) (sym at) (gate_of-LeadsTo (isr k) (isr_small k)),
      λ k lt.
          let zero_on : 0 + k ≡ k = omega arith in
          let at : get_or (set_gates 16 irq 32 0 first) (32 + k) d ≡ gate_of (irq k) 0x08 0x8e =
            set_gates-set irq d 16 32 0 k first lt (omega (arith, table, long))
            ∙ ap (λ q. gate_of (irq q) 0x08 0x8e) zero_on in
          subst (λ g. LeadsTo g (irq k)) (sym at) (gate_of-LeadsTo (irq k) (irq_small k)),
      λ k past.
          set_gates-others irq d 16 32 0 k first (inr past)
          ∙ set_gates-others isr d 32 0 0 k t.idt_entries (inr (omega arith)),
    )
