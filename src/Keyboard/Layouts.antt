-- ===== src/Keyboard/Layouts.antt =====
-- The scancode tables of kernel/drivers/keyboard.c and the table of layouts. A table lists the
-- characters of the scanbytes_of from 0 on; the rest of its 128 places hold 0.
use Prim.Native.String.{String}
use next_os.Prelude.{ℕ, List, [], ◌∷◌, ◌++◌, replicate, bytes_of}

-- The keypad asterisk, the space bar, the keys from caps lock to scroll lock and the keypad.
abbrev pub keypad : List ℕ
keypad = 42 ∷ 0 ∷ 32 ∷ (replicate 13 0 ++ bytes_of "789-456+1230." ++ replicate 5 0)

-- Four rows of keys, with backspace, tab, enter, control and the two shift keys around them.
abbrev pub rows : List ℕ → List ℕ → List ℕ → List ℕ → List ℕ
rows digits upper home lower =
    0 ∷ 27 ∷ (digits ++ (8 ∷ 9 ∷ (upper ++ (10 ∷ 0 ∷ (home ++ (0 ∷ (lower ++ (0 ∷ keypad))))))))

abbrev pub us_normal : List ℕ
us_normal =
    rows (bytes_of "1234567890-=") (bytes_of "qwertyuiop[]") (bytes_of "asdfghjkl;'`")
      (92 ∷ bytes_of "zxcvbnm,./")

abbrev pub us_shift : List ℕ
us_shift =
    rows (bytes_of "!@#$%^&*()_+") (bytes_of "QWERTYUIOP{}")
      (bytes_of "ASDFGHJKL:" ++ (34 ∷ 126 ∷ [])) (bytes_of "|ZXCVBNM<>?")

abbrev pub hu_normal : List ℕ
hu_normal =
    rows (bytes_of "123456789ouo") (bytes_of "qwertzuiopou") (bytes_of "asdfghjklea0")
      (bytes_of "uyxcvbnm,./")

abbrev pub hu_shift : List ℕ
hu_shift =
    rows (39 ∷ 34 ∷ bytes_of "+!%/=()OUO") (bytes_of "QWERTZUIOPOU") (bytes_of "ASDFGHJKLEA~")
      (bytes_of "UYXCVBNM?:_")

abbrev pub de_normal : List ℕ
de_normal =
    rows (bytes_of "1234567890s'") (bytes_of "qwertzuiopu+") (bytes_of "asdfghjkloa^")
      (bytes_of "#yxcvbnm,./")

abbrev pub de_shift : List ℕ
de_shift =
    rows (33 ∷ 34 ∷ bytes_of "#$%&/()=?`") (bytes_of "QWERTZUIOPU*") (bytes_of "ASDFGHJKLOA~")
      (bytes_of "'YXCVBNM;:_")

abbrev pub fr_normal : List ℕ
fr_normal =
    rows (38 ∷ 101 ∷ 34 ∷ bytes_of "'(#{!ca)=") (bytes_of "azertyuiop^$") (bytes_of "qsdfghjklmu*")
      (bytes_of "<wxcvbn,;:!")

abbrev pub fr_shift : List ℕ
fr_shift =
    rows (bytes_of "1234567890]+") (bytes_of "AZERTYUIOP^$") (bytes_of "QSDFGHJKLM%~")
      (bytes_of ">WXCVBN?./!")

-- `layout_map_t`
pub record LayoutMap : Type 0 where
  pub normal : List ℕ
  pub shift : List ℕ

abbrev pub us_map : LayoutMap
us_map = record { normal = us_normal; shift = us_shift }

-- `KB_LAYOUT_COUNT`
abbrev pub layout_count : ℕ
layout_count = 26

-- `layouts`, in the order of `kb_layout_t`
abbrev pub layouts : List LayoutMap
layouts =
    us_map
    ∷ record { normal = hu_normal; shift = hu_shift }
    ∷ record { normal = de_normal; shift = de_shift }
    ∷ record { normal = fr_normal; shift = fr_shift }
    ∷ replicate 22 us_map

-- `layout_names`
abbrev pub layout_names : List String
layout_names =
    "US English" ∷ "Hungarian" ∷ "German" ∷ "French" ∷ "Spanish" ∷ "Italian" ∷ "Portuguese"
    ∷ "UK English" ∷ "Czech" ∷ "Polish" ∷ "Romanian" ∷ "Slovak" ∷ "Croatian" ∷ "Slovenian"
    ∷ "Swedish" ∷ "Norwegian" ∷ "Danish" ∷ "Finnish" ∷ "Dutch" ∷ "Belgian" ∷ "Swiss" ∷ "Turkish"
    ∷ "Russian" ∷ "Japanese" ∷ "Korean" ∷ "Brazilian" ∷ []
