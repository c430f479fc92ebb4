-- ===== src/Mouse/Packets.antt =====
-- Whole packets, and the bounds of the cursor.
use next_os.Prelude.{
  ℕ, ◌-◌, ◌≤◌, ◌<◌, bit_and, ◌≡◌, refl, sym, ◌∙◌, inl, inr, Bool, true, false, List, [], ◌∷◌, ltb,
  ◌==◌, if◌then◌else◌, Bool-cases, arith,
}
use mathlib.Core.Path.{subst}
use next_os.Prelude.Int.{ℤ, pos, negsuc}
use next_os.Mouse.{Mouse, clamp, process_packet, mouse_irq}

-- A coordinate is one of `limit` on the screen.
abbrev pub OnScreen : ℤ → ℕ → Type 0
OnScreen z limit = (n : ℕ) × (z ≡ pos n) × (n < limit)

pub clamp-OnScreen : (z : ℤ) (limit : ℕ) → 0 < limit → OnScreen (clamp z (pos limit)) limit
unfolding clamp
clamp-OnScreen (negsuc n) limit h = (0, ground arith, h)
clamp-OnScreen (pos n) limit h = elim (Bool-cases (ltb n limit)) [
  | inl inside ↦ (n, rw inside refl, ground arith)
  | inr outside ↦ (limit - 1, rw outside (ground arith), omega arith)
]

-- The bytes that a device delivers, one interrupt after the other.
unfoldable pub irqs : Mouse → List ℕ → Mouse
irqs m [] = m
irqs m (b ∷ bs) = irqs (mouse_irq m b) bs

-- The cursor is on the screen.
pub record IsValid (w h : ℕ) (m : Mouse) : Type 0 where
  pub wide : m.max_x ≡ pos w
  pub high : m.max_y ≡ pos h
  pub x_in : OnScreen m.state.x w
  pub y_in : OnScreen m.state.y h
  pub cycle : m.mouse_cycle ≤ 3

process_packet-IsValid :
    (w h : ℕ) (m : Mouse)
    → 0 < w
    → 0 < h
    → m.max_x ≡ pos w
    → m.max_y ≡ pos h
    → m.mouse_cycle ≤ 3
    → IsValid w h (process_packet m)
unfolding process_packet
process_packet-IsValid w h m pw ph ex ey c = record {
  wide = ex;
  high = ey;
  x_in = rw ex (clamp-OnScreen _ w pw);
  y_in = rw ey (clamp-OnScreen _ h ph);
  cycle = c;
}

if_both : {A : Type 0} (P : A → Type 0) (b : Bool) {x y : A} → P x → P y → P (if b then x else y)
if_both P true px py = px
if_both P false px py = py

mouse_irq-IsValid :
    (w h : ℕ) (m : Mouse) (b : ℕ) → 0 < w → 0 < h → IsValid w h m → IsValid w h (mouse_irq m b)
unfolding mouse_irq
mouse_irq-IsValid w h m b pw ph v =
    let kept : ((m' : Mouse)
        → m'.state ≡ m.state
        → m'.max_x ≡ m.max_x
        → m'.max_y ≡ m.max_y
        → m'.mouse_cycle ≤ 3
        → IsValid w h m') =
      λ m' s ex ey c. record {
        wide = ex ∙ v.wide;
        high = ey ∙ v.high;
        x_in = subst (λ q. OnScreen q.x w) (sym s) v.x_in;
        y_in = subst (λ q. OnScreen q.y h) (sym s) v.y_in;
        cycle = c;
      } in
    if_both (IsValid w h) (m.mouse_cycle == 0) (kept _ refl refl refl (ground arith)) (
      if_both (IsValid w h) (m.mouse_cycle == 1) (kept _ refl refl refl (omega arith)) (
        if_both (IsValid w h) (m.mouse_cycle == 2)
          (if_both (IsValid w h) m.has_scroll_wheel (kept _ refl refl refl (omega arith)) (
            process_packet-IsValid w h (record m { byte_2 = b; mouse_cycle = 0 }) pw ph v.wide
              v.high (omega arith)))
          (if_both (IsValid w h) (m.mouse_cycle == 3)
            (process_packet-IsValid w h (record m { byte_3 = b; mouse_cycle = 0 }) pw ph v.wide
              v.high (omega arith))
            v)))

-- From a state where the cursor is on a screen with pixels, and whatever bytes arrive, the cursor stays on the screen.
pub irqs-IsValid :
    (w h : ℕ) (bs : List ℕ) (m : Mouse) → 0 < w → 0 < h → IsValid w h m → IsValid w h (irqs m bs)
unfolding irqs
irqs-IsValid w h [] m pw ph v = v
irqs-IsValid w h (b ∷ bs) m pw ph v =
    irqs-IsValid w h bs (mouse_irq m b) pw ph (mouse_irq-IsValid w h m b pw ph v)

-- The bytes of a packet: three, and a fourth from a mouse with a wheel.
abbrev pub packet : Bool → ℕ → ℕ → ℕ → ℕ → List ℕ
packet true b0 b1 b2 b3 = b0 ∷ b1 ∷ b2 ∷ b3 ∷ []
packet false b0 b1 b2 b3 = b0 ∷ b1 ∷ b2 ∷ []

-- Between two packets, a byte with bit 3 set and the rest of its packet, of three bytes or four with
-- a wheel, have the effect of `process_packet` on those bytes.
pub irqs-packet :
    (m : Mouse) (b0 b1 b2 b3 : ℕ)
    → m.mouse_cycle ≡ 0
    → (bit_and b0 0x08 == 0) ≡ false
    → irqs m (packet m.has_scroll_wheel b0 b1 b2 b3)
      ≡ process_packet (record m {
        mouse_cycle = 0;
        byte_0 = b0;
        byte_1 = b1;
        byte_2 = b2;
        byte_3 = if m.has_scroll_wheel then b3 else m.byte_3;
      })
unfolding irqs mouse_irq
irqs-packet m b0 b1 b2 b3 start first = elim (Bool-cases m.has_scroll_wheel) [
  | inl wheel ↦ rw (wheel, start, first) refl
  | inr plain ↦ rw (plain, start, first) refl
]
