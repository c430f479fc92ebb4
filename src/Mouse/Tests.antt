-- ===== src/Mouse/Tests.antt =====
-- The driver as its variables are at first.
use next_os.Prelude.{ℕ, ◌≡◌, refl, false, List, [], ◌∷◌, arith}
use next_os.Prelude.Int.{pos}
use next_os.Mouse.{Mouse, clamp, process_packet, mouse_irq}
use next_os.Mouse.Packets.{IsValid, irqs, irqs-IsValid, irqs-packet}

abbrev start : Mouse
start = record {
  state = record { x = pos 0; y = pos 0; dx = pos 0; dy = pos 0; scroll = pos 0; buttons = 0 };
  max_x = pos 1024;
  max_y = pos 768;
  mouse_speed = 5;
  mouse_cycle = 0;
  byte_0 = 0;
  byte_1 = 0;
  byte_2 = 0;
  byte_3 = 0;
  has_scroll_wheel = false;
}

-- The left button, 3 to the right and 2 down.
abbrev bytes : List ℕ
bytes = 9 ∷ 3 ∷ 254 ∷ []

moved : ((irqs start bytes).state.x ≡ pos 3) × ((irqs start bytes).state.y ≡ pos 2)
unfolding irqs mouse_irq process_packet clamp
moved = (refl, refl)

irqs-IsValid_example : IsValid 1024 768 (irqs start bytes)
irqs-IsValid_example = irqs-IsValid 1024 768 bytes start (omega arith) (omega arith) (record {
  wide = refl;
  high = refl;
  x_in = (0, refl, omega arith);
  y_in = (0, refl, omega arith);
  cycle = omega arith;
})

irqs-packet_example :
    irqs start (9 ∷ 3 ∷ 254 ∷ [])
    ≡ process_packet (record start { byte_0 = 9; byte_1 = 3; byte_2 = 254 })
irqs-packet_example = irqs-packet start 9 3 254 0 refl refl
