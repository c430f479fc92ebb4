-- ===== src/Keyboard/Tests.antt =====
-- The driver as it is at start, with an empty buffer.
use next_os.Prelude.{◌≡◌, refl, true, false, none, some, List, [], ◌∷◌, replicate, arith}
use next_os.Keyboard.{
  KeyEvent, Keyboard, no_event, decode, push_event, keyboard_irq, keyboard_poll,
  keyboard_set_layout, keyboard_get_layout, keyboard_layout_name, translate_scancode,
}
use next_os.Keyboard.Ring.{IsValid}
use next_os.Keyboard.Decode.{
  with_caps, decode_all, flag_after, is_shift, is_ctrl, is_alt, translate_scancode-caps,
  decode_all-flag_after,
}
use next_os.Keyboard.Refine.{Call, interrupt, poll, step, run, spec_run, view, run-spec_run}

abbrev start : Keyboard
start = record {
  modifiers = with_caps false 0;
  key_buffer = replicate 256 no_event;
  read_idx = 0;
  write_idx = 0;
}

start-IsValid : IsValid start
start-IsValid = record { sized = refl; read_in = omega arith; write_in = omega arith }

-- Shift, the key A pressed, then two polls.
abbrev calls : List Call
calls = interrupt 0x2a ∷ interrupt 0x1e ∷ poll ∷ poll ∷ []

capital : KeyEvent
capital = record {
  scancode = 0x1e;
  ascii = b'A';
  pressed = true;
  shift = true;
  ctrl = false;
  alt = false;
}

reads_capital : run start calls ≡ none ∷ none ∷ some capital ∷ none ∷ []
unfolding run step keyboard_irq keyboard_poll decode push_event capital
reads_capital = refl

-- The release of caps lock is reported as an event of its own, the press is not.
caps_release :
    run start (interrupt 0x3a ∷ poll ∷ interrupt 0xba ∷ poll ∷ [])
    ≡ none ∷ none ∷ none ∷ some (record no_event { scancode = 0x3a }) ∷ []
unfolding run step keyboard_irq keyboard_poll decode push_event
caps_release = refl

layout_names_lem :
    (keyboard_layout_name 1 ≡ "Hungarian")
    × (keyboard_layout_name 26 ≡ "Unknown")
    × (keyboard_get_layout (keyboard_set_layout start 26) ≡ 0)
unfolding keyboard_layout_name keyboard_set_layout keyboard_get_layout
layout_names_lem = (refl, refl, refl)

run-spec_run_example : run start calls ≡ spec_run (view start) calls
run-spec_run_example = run-spec_run calls start start-IsValid

translate_scancode-caps_example :
    (translate_scancode (with_caps true 1) 0x15 false
      ≡ translate_scancode (with_caps false 1) 0x15 true)
    × (translate_scancode (with_caps true 1) 0x15 true
        ≡ translate_scancode (with_caps false 1) 0x15 false)
unfolding translate_scancode
translate_scancode-caps_example =
    translate_scancode-caps 1 0x15 (omega arith) (omega arith) refl refl

decode_all-flag_after_example :
    ((decode_all (with_caps false 0) (0x2a ∷ 0xaa ∷ [])).shift_held
      ≡ flag_after is_shift false (0x2a ∷ 0xaa ∷ []))
    × ((decode_all (with_caps false 0) (0x2a ∷ 0xaa ∷ [])).ctrl_held
        ≡ flag_after is_ctrl false (0x2a ∷ 0xaa ∷ []))
    × ((decode_all (with_caps false 0) (0x2a ∷ 0xaa ∷ [])).alt_held
        ≡ flag_after is_alt false (0x2a ∷ 0xaa ∷ []))
decode_all-flag_after_example = decode_all-flag_after (0x2a ∷ 0xaa ∷ []) (with_caps false 0)
