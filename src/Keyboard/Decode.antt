-- ===== src/Keyboard/Decode.antt =====
-- What the driver makes of scancodes: caps lock, and the modifier flags over any input.
use next_os.Prelude.{
  ℕ, ◌<◌, bit_and, ◌≡◌, refl, ap, ◌∙◌, Bool, true, false, not, ◌&&◌, ◌||◌, List, [], ◌∷◌, leb, ◌==◌,
  if◌then◌else◌, arith, Bool-cases, inl, inr, passes_below, passes_below_lem, ==_iff, sym,
}
use mathlib.Core.Path.{subst}
use next_os.Keyboard.{Modifiers, translate_scancode, decode, decode_key}
use next_os.Keyboard.Layouts.{layout_count}

abbrev pub is_lower : ℕ → Bool
is_lower c = leb b'a' c && leb c b'z'

abbrev pub is_upper : ℕ → Bool
is_upper c = leb b'A' c && leb c b'Z'

-- The modifiers that `translate_scancode` reads.
abbrev pub with_caps : Bool → ℕ → Modifiers
with_caps caps l = record {
  shift_held = false;
  ctrl_held = false;
  alt_held = false;
  caps_lock = caps;
  e0_prefix = false;
  current_layout = l;
}

-- On one key of one layout: if it gives a letter in both cases, caps lock swaps them.
abbrev swaps : ℕ → ℕ → Bool
swaps l sc =
    let plain = translate_scancode (with_caps false l) sc false in
    let shifted = translate_scancode (with_caps false l) sc true in
    not (is_lower plain && is_upper shifted)
    || (translate_scancode (with_caps true l) sc false == shifted
        && translate_scancode (with_caps true l) sc true == plain)

swaps_table : passes_below (λ l. passes_below (swaps l) 128) layout_count ≡ true
unfolding passes_below translate_scancode
swaps_table = refl

swaps_lem : (l sc : ℕ) → l < layout_count → sc < 128 → swaps l sc ≡ true
swaps_lem l sc hl hs =
    passes_below_lem (swaps l) hs
      (passes_below_lem (λ k. passes_below (swaps k) 128) hl swaps_table)

-- On every layout, a key that gives a lower-case letter without shift and an upper-case one with
-- it gives the two swapped while caps lock is on.
pub translate_scancode-caps :
    (l sc : ℕ)
    → l < layout_count
    → sc < 128
    → is_lower (translate_scancode (with_caps false l) sc false) ≡ true
    → is_upper (translate_scancode (with_caps false l) sc true) ≡ true
    → (translate_scancode (with_caps true l) sc false
        ≡ translate_scancode (with_caps false l) sc true)
      × (translate_scancode (with_caps true l) sc true
          ≡ translate_scancode (with_caps false l) sc false)
translate_scancode-caps l sc hl hs lower upper =
    let table = swaps_lem l sc hl hs in
    both (translate_scancode (with_caps false l) sc false)
      (translate_scancode (with_caps false l) sc true)
      (translate_scancode (with_caps true l) sc false)
      (translate_scancode (with_caps true l) sc true) lower upper table
  where
    both :
        (a b c d : ℕ)
        → is_lower a ≡ true
        → is_upper b ≡ true
        → (not (is_lower a && is_upper b) || (c == b && d == a)) ≡ true
        → (c ≡ b) × (d ≡ a)
    both a b c d p q t = let s = rw (p, q) at t in (ground arith, ground arith)

-- The key of a byte, and whether the byte reports its release.
abbrev pub key_of : ℕ → ℕ
key_of sc = bit_and sc 0x7f

abbrev pub is_release : ℕ → Bool
is_release sc = not (bit_and sc 0x80 == 0)

-- A flag after some bytes: the last byte of one of its keys decides.
unfoldable pub flag_after : (ℕ → Bool) → Bool → List ℕ → Bool
flag_after is_key held [] = held
flag_after is_key held (sc ∷ scs) =
    flag_after is_key (if is_key (key_of sc) then not (is_release sc) else held) scs

abbrev pub is_shift : ℕ → Bool
is_shift code = code == 0x2a || code == 0x36

abbrev pub is_ctrl : ℕ → Bool
is_ctrl code = code == 0x1d

abbrev pub is_alt : ℕ → Bool
is_alt code = code == 0x38

-- The modifiers after some bytes.
unfoldable pub decode_all : Modifiers → List ℕ → Modifiers
decode_all m [] = m
decode_all m (sc ∷ scs) = decode_all (decode m sc).0 scs

-- What one key does to the three flags.
abbrev Flags : Modifiers → Modifiers → ℕ → Bool → Type 0
Flags m m' code released =
    (m'.shift_held ≡ (if is_shift code then not released else m.shift_held))
    × (m'.ctrl_held ≡ (if is_ctrl code then not released else m.ctrl_held))
    × (m'.alt_held ≡ (if is_alt code then not released else m.alt_held))

decode_key-Flags :
    (m : Modifiers) (ext : Bool) (code : ℕ) (released : Bool)
    → Flags m (decode_key m ext code released).0 code released
unfolding decode_key
decode_key-Flags m ext code released = ground arith

-- The prefix byte is no modifier key.
prefix-Flags :
    (m m' : Modifiers) (sc : ℕ)
    → sc ≡ 0xe0
    → m'.shift_held ≡ m.shift_held
    → m'.ctrl_held ≡ m.ctrl_held
    → m'.alt_held ≡ m.alt_held
    → Flags m m' (key_of sc) (is_release sc)
prefix-Flags m m' sc e a b c = subst (λ k. Flags m m' (key_of k) (is_release k)) (sym e) (a, b, c)

decode-Flags : (m : Modifiers) (sc : ℕ) → Flags m (decode m sc).0 (key_of sc) (is_release sc)
unfolding decode
decode-Flags m sc = elim (Bool-cases (sc == 0xe0)) [
  | inl e ↦
      let p : sc ≡ 0xe0 = (==_iff sc 0xe0).0 e in
      rw e (prefix-Flags m (record m { e0_prefix = true }) sc p refl refl refl)
  | inr e ↦
      rw e
        (decode_key-Flags (record m { e0_prefix = false }) m.e0_prefix (key_of sc) (is_release sc))
]

-- After any bytes, extended or not, each of the flags for shift, control and alt says whether the
-- last byte of one of its keys was a press, and is as before if there was none.
pub decode_all-flag_after :
    (scs : List ℕ) (m : Modifiers)
    → ((decode_all m scs).shift_held ≡ flag_after is_shift m.shift_held scs)
      × ((decode_all m scs).ctrl_held ≡ flag_after is_ctrl m.ctrl_held scs)
      × ((decode_all m scs).alt_held ≡ flag_after is_alt m.alt_held scs)
unfolding decode_all flag_after
decode_all-flag_after [] m = (refl, refl, refl)
decode_all-flag_after (sc ∷ scs) m =
    let ih = decode_all-flag_after scs (decode m sc).0 in
    let f = decode-Flags m sc in
    (
      ih.0 ∙ ap (λ b. flag_after is_shift b scs) f.0,
      ih.1 ∙ ap (λ b. flag_after is_ctrl b scs) f.1,
      ih.2 ∙ ap (λ b. flag_after is_alt b scs) f.2,
    )
