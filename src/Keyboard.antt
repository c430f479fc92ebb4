-- ===== src/Keyboard.antt =====
-- kernel/drivers/keyboard.c, the PS/2 keyboard driver. The byte that the interrupt handler reads
-- from port 0x60 is an argument. The flags, `int`s that hold 0 or 1, are Booleans.
pub mod Layouts
pub mod Ring
pub mod Decode
pub mod Refine
mod Tests
use Prim.Native.String.{String}
use next_os.Prelude.{
  ℕ, ◌+◌, ◌-◌, ◌%◌, bit_and, Bool, true, false, not, ◌&&◌, ◌||◌, Option, none, some, List, ltb, leb,
  ◌==◌, if◌then◌else◌, get_or, set,
}
use next_os.Keyboard.Layouts.{LayoutMap, layouts, layout_count, layout_names, us_map}

abbrev pub key_buf_size : ℕ
key_buf_size = 256

-- `key_event_t`
pub record KeyEvent : Type 0 where
  pub scancode : ℕ
  pub ascii : ℕ
  pub pressed : Bool
  pub shift : Bool
  pub ctrl : Bool
  pub alt : Bool

-- What static storage holds at first.
abbrev pub no_event : KeyEvent
no_event = record {
  scancode = 0;
  ascii = 0;
  pressed = false;
  shift = false;
  ctrl = false;
  alt = false;
}

-- The modifier flags and the layout.
pub record Modifiers : Type 0 where
  pub shift_held : Bool
  pub ctrl_held : Bool
  pub alt_held : Bool
  pub caps_lock : Bool
  pub e0_prefix : Bool
  pub current_layout : ℕ

pub record Keyboard : Type 0 where
  pub modifiers : Modifiers
  pub key_buffer : List KeyEvent
  pub read_idx : ℕ
  pub write_idx : ℕ

-- The case changes at the end of `translate_scancode`.
pub apply_caps : Bool → Bool → ℕ → ℕ
apply_caps caps shifted c =
    if caps && not shifted
    then (if leb b'a' c && leb c b'z' then c - 32 else c)
    else if caps && shifted
    then (if leb b'A' c && leb c b'Z' then c + 32 else c)
    else c

-- `translate_scancode`
pub translate_scancode : Modifiers → ℕ → Bool → ℕ
unfolding apply_caps
translate_scancode m sc shifted =
    let lm = get_or layouts m.current_layout us_map in
    let c = if shifted then get_or lm.shift sc 0 else get_or lm.normal sc 0 in
    if leb 128 sc then 0 else apply_caps m.caps_lock shifted c

-- The event that `keyboard_irq` builds; the flag says whether the scancode was extended.
pub key_event : Modifiers → Bool → ℕ → Bool → KeyEvent
unfolding translate_scancode
key_event m is_extended code released = record {
  scancode = code;
  ascii = if is_extended then 0 else if released then 0 else translate_scancode m code m.shift_held;
  pressed = not released;
  shift = m.shift_held;
  ctrl = m.ctrl_held;
  alt = m.alt_held;
}

-- The part of `keyboard_irq` behind the test for the prefix: what the key at `code` does to the
-- modifiers, and the event that it gives rise to.
pub decode_key : Modifiers → Bool → ℕ → Bool → Modifiers × Option KeyEvent
unfolding key_event
decode_key m is_extended code released =
    if code == 0x2a || code == 0x36
    then (record m { shift_held = not released }, none)
    else if code == 0x1d
    then (record m { ctrl_held = not released }, none)
    else if code == 0x38
    then (record m { alt_held = not released }, none)
    else if code == 0x3a && not released
    then (record m { caps_lock = not m.caps_lock }, none)
    else (m, some (key_event m is_extended code released))

-- `keyboard_irq` up to the write to the buffer.
pub decode : Modifiers → ℕ → Modifiers × Option KeyEvent
unfolding decode_key
decode m sc =
    if sc == 0xe0
    then (record m { e0_prefix = true }, none)
    else decode_key (record m { e0_prefix = false }) m.e0_prefix (bit_and sc 0x7f)
        (not (bit_and sc 0x80 == 0))

-- The write to the circular buffer; a full buffer drops the event.
pub push_event : Keyboard → Option KeyEvent → Keyboard
push_event k none = k
push_event k (some ev) =
    let next = (k.write_idx + 1) % key_buf_size in
    if next == k.read_idx
    then k
    else record k { key_buffer = set k.key_buffer k.write_idx ev; write_idx = next }

pub keyboard_irq : Keyboard → ℕ → Keyboard
keyboard_irq k sc =
    let (m, ev) = decode k.modifiers sc in push_event (record k { modifiers = m }) ev

-- `keyboard_poll`; `none` is its result 0.
pub keyboard_poll : Keyboard → Keyboard × Option KeyEvent
keyboard_poll k = if k.read_idx == k.write_idx then (k, none) else (
  record k { read_idx = (k.read_idx + 1) % key_buf_size },
  some (get_or k.key_buffer k.read_idx no_event),
)

-- `keyboard_set_layout`; a layout that does not exist is ignored.
pub keyboard_set_layout : Keyboard → ℕ → Keyboard
keyboard_set_layout k layout =
    if ltb layout layout_count
    then record k { modifiers = record (k.modifiers) { current_layout = layout } }
    else k

pub keyboard_get_layout : Keyboard → ℕ
keyboard_get_layout k = k.modifiers.current_layout

pub keyboard_layout_name : ℕ → String
keyboard_layout_name layout =
    if ltb layout layout_count then get_or layout_names layout "Unknown" else "Unknown"
