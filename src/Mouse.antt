-- ===== src/Mouse.antt =====
-- kernel/drivers/mouse.c, the PS/2 mouse driver. The byte that the
-- interrupt handler reads from port 0x60 is an argument, and `int`s do not overflow.
pub mod Packets
mod Tests
use next_os.Prelude.{
  ℕ, ◌+◌, ◌-◌, ◌*◌, bit_and, bit_or, Bool, true, false, not, ◌||◌, List, [], ◌∷◌, ◌++◌, get_or, ltb,
  ◌==◌, if◌then◌else◌,
}
use next_os.Prelude.Int.{ℤ, pos, negsuc, neg, add, scale, is_neg, less, below_zero}

-- `mouse_state_t`
pub record MouseState : Type 0 where
  pub x : ℤ
  pub y : ℤ
  pub dx : ℤ
  pub dy : ℤ
  pub scroll : ℤ
  pub buttons : ℕ

-- The variables of the file; the bytes of the packet are kept as they were read.
pub record Mouse : Type 0 where
  pub state : MouseState
  pub max_x : ℤ
  pub max_y : ℤ
  pub mouse_speed : ℕ
  pub mouse_cycle : ℕ
  pub byte_0 : ℕ
  pub byte_1 : ℕ
  pub byte_2 : ℕ
  pub byte_3 : ℕ
  pub has_scroll_wheel : Bool

-- `(int)(int8_t)b`
abbrev pub signed : ℕ → ℤ
signed b = if ltb b 128 then pos b else negsuc (255 - b)

-- The four bits of the wheel, with their sign.
abbrev pub wheel_of : ℕ → ℤ
wheel_of b =
    let wheel = bit_and b 0x0f in if bit_and wheel 0x08 == 0 then pos wheel else negsuc (15 - wheel)

-- The tests of one coordinate against its bounds.
unfoldable pub clamp : ℤ → ℤ → ℤ
clamp z limit =
    let raised = if is_neg z then pos 0 else z in
    if less raised limit then raised else add limit (negsuc 0)

-- `mouse_irq` from `process_packet` on
unfoldable pub process_packet : Mouse → Mouse
process_packet m =
    let s = m.state in
    let dx = scale (signed m.byte_1) m.mouse_speed 5 in
    let dy = scale (neg (signed m.byte_2)) m.mouse_speed 5 in
    record m {
      state = record {
        x = clamp (add s.x dx) m.max_x;
        y = clamp (add s.y dy) m.max_y;
        dx = dx;
        dy = dy;
        scroll = if m.has_scroll_wheel then add s.scroll (wheel_of m.byte_3) else s.scroll;
        buttons = bit_and m.byte_0 0x07;
      };
    }

-- `mouse_irq`
unfoldable pub mouse_irq : Mouse → ℕ → Mouse
mouse_irq m b =
    if m.mouse_cycle == 0
    then record m { byte_0 = b; mouse_cycle = if bit_and b 0x08 == 0 then 0 else 1 }
    else if m.mouse_cycle == 1
    then record m { byte_1 = b; mouse_cycle = 2 }
    else if m.mouse_cycle == 2
    then if m.has_scroll_wheel
      then record m { byte_2 = b; mouse_cycle = 3 }
      else process_packet (record m { byte_2 = b; mouse_cycle = 0 })
    else if m.mouse_cycle == 3
    then process_packet (record m { byte_3 = b; mouse_cycle = 0 })
    else m

unfoldable pub mouse_consume_scroll : Mouse → Mouse × ℤ
mouse_consume_scroll m = (record m { state = record (m.state) { scroll = pos 0 } }, m.state.scroll)

unfoldable pub mouse_set_bounds : Mouse → ℤ → ℤ → Mouse
mouse_set_bounds m mx my = record m { max_x = mx; max_y = my }

-- `mouse_set_speed`; the speed kept is from 1 to 10.
unfoldable pub mouse_set_speed : Mouse → ℤ → Mouse
mouse_set_speed m (negsuc n) = record m { mouse_speed = 1 }
mouse_set_speed m (pos n) =
    let raised = if ltb n 1 then 1 else n in
    record m { mouse_speed = if ltb 10 raised then 10 else raised }

-- The two writes of `mouse_write`.
abbrev pub mouse_write : ℕ → List (ℕ × ℕ)
mouse_write val = (0x64, 0xd4) ∷ (0x60, val) ∷ []

-- `mouse_init`: the new state and the writes, each a port and a byte. `reads` are the bytes that it
-- reads from port 0x60, in order: the status of the controller, seven acknowledgements, that of the
-- question for the identity, the identity, and three acknowledgements. A wait for the device changes
-- nothing of what is written.
unfoldable pub mouse_init : Mouse → List ℕ → Mouse × List (ℕ × ℕ)
mouse_init m reads =
    let id = get_or reads 9 0 in
    let status = bit_or (get_or reads 0 0) 0x02 in
    (
      record m { has_scroll_wheel = id == 3 || id == 4 },
      ((0x64, 0xa8) ∷ (0x64, 0x20) ∷ (0x64, 0x60) ∷ (0x60, status) ∷ [])
          ++ mouse_write 0xf6
          ++ mouse_write 0xf3
          ++ mouse_write 200
          ++ mouse_write 0xf3
          ++ mouse_write 100
          ++ mouse_write 0xf3
          ++ mouse_write 80
          ++ mouse_write 0xf2
          ++ mouse_write 0xf3
          ++ mouse_write 200
          ++ mouse_write 0xf4,
    )
