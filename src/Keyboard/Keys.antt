-- ===== src/Keyboard/Keys.antt =====
-- Which character a letter key types, and what the status keys do when pressed and released.
use mcy_os.Prelude.{
  ℕ, ◌-◌, ◌/◌, ◌%◌, ◌≤◌, ◌<◌, ◌≡◌, refl, ◌∙◌, ◌≢◌, Bool, true, false, not, ◌&&◌, ◌||◌, List, [],
  ◌∷◌, ◌++◌, arith, all_below, all_below_sound, ltb, leb, ◌==◌, if◌then◌else◌, ltb→lt, leb→le,
  and_left, and_right, get_or, Result, ok, ◌>>=◌,
}
use mcy_os.LinkedList.{Ptr}
use mcy_os.Ioqueue.{bufsize}
use mcy_os.Ioqueue.Fifo.{IsValid, contents, held}
use mcy_os.Keyboard.{
  keymap, Keyboard, exactly_one, has_two_signs, is_known, release, char_of, hold, type_char, press,
  handle_code, intr_keyboard_handler,
}
use mcy_os.Keyboard.Typing.{type_char-room}

abbrev pub letter_of : ℕ → ℕ
letter_of code = (get_or keymap code (0, 0)).0

-- The keys whose character without shift is a small letter.
abbrev pub is_letter : ℕ → Bool
is_letter code = ltb code 0x3b && (leb 97 (letter_of code) && leb (letter_of code) 122)

-- What the keymap has to say of a letter key: its capital is 32 below, the key is not one of the
-- signs, and its code is a make code.
abbrev letter_facts : ℕ → Bool
letter_facts code =
    (get_or keymap code (0, 0)).1 == letter_of code - 32
    && (leb 97 (letter_of code) && (not (has_two_signs code) && (is_known code && ltb code 128)))

abbrev letter_is_fine : ℕ → Bool
letter_is_fine code = not (is_letter code) || letter_facts code

letters_are_fine : all_below 0x3b letter_is_fine ≡ true
unfolding all_below
letters_are_fine = refl

-- A letter key, and the character it types.
record LetterKey (code : ℕ) : Type 0 where
  capital : (get_or keymap code (0, 0)).1 ≡ letter_of code - 32
  small : 97 ≤ letter_of code
  no_signs : has_two_signs code ≡ false
  known : is_known code ≡ true
  make : code < 128

implied : (a b : Bool) → (not a || b) ≡ true → a ≡ true → b ≡ true
implied a b h t = ground arith

eq-true : (a b : ℕ) → (a == b) ≡ true → a ≡ b
eq-true a b h = ground arith

not-true : (a : Bool) → not a ≡ true → a ≡ false
not-true a h = ground arith

is_letter-LetterKey : (code : ℕ) → is_letter code ≡ true → LetterKey code
is_letter-LetterKey code l =
    let below : code < 0x3b = ltb→lt code 0x3b (and_left _ _ l) in
    let facts =
      implied (is_letter code) (letter_facts code)
        (all_below_sound 0x3b letter_is_fine code letters_are_fine below) l in
    let rest = and_right _ _ facts in
    let rest' = and_right _ _ rest in
    let rest'' = and_right _ _ rest' in
    record {
      capital = eq-true _ _ (and_left _ _ facts);
      small = leb→le _ _ (and_left _ _ rest);
      no_signs = not-true _ (and_left _ _ rest');
      known = and_left _ _ rest'';
      make = ltb→lt _ _ (and_right _ _ rest'');
    }

-- The letter that is typed: the capital exactly if one of shift and caps lock is on, but not both.
abbrev pub cased : Keyboard → ℕ → ℕ
cased k letter = if exactly_one k.shift_status k.caps_lock_status then letter - 32 else letter

char_of-letter :
    (k : Keyboard) (code : ℕ)
    → LetterKey code
    → k.ctrl_status ≡ false
    → char_of k code ≡ cased k (letter_of code)
unfolding char_of
char_of-letter k code key ctrl =
    let whole : code % 256 ≡ code = omega (arith, key.make) in
    rw (whole, key.no_signs, key.capital, ctrl)

module _ (cur : Ptr) where
  press-letter :
      (k : Keyboard) (code : ℕ)
      → LetterKey code
      → k.ctrl_status ≡ false
      → press false cur k code ≡ type_char false cur k (cased k (letter_of code))
  unfolding press
  press-letter k code key ctrl =
      let typed : (cased k (letter_of code) == 0) ≡ false = ground (arith, key.small) in
      rw (char_of-letter k code key ctrl, typed)

  intr_keyboard_handler-letter :
      (k : Keyboard) (code : ℕ)
      → LetterKey code
      → k.ctrl_status ≡ false
      → k.ext_scancode ≡ false
      → intr_keyboard_handler false cur k code
        ≡ type_char false cur (record k { ext_scancode = false }) (cased k (letter_of code))
  unfolding intr_keyboard_handler handle_code
  intr_keyboard_handler-letter k code key ctrl ext =
      let no_prefix : (code == 0xe0) ≡ false = ground (arith, key.make) in
      let make : (code / 0x80 % 2 == 1) ≡ false = ground (arith, key.make) in
      rw (no_prefix, ext, make, key.known)
        (press-letter (record k { ext_scancode = false }) code key ctrl)

  -- With ctrl up, interrupts off and room in a valid queue, a letter key puts its letter behind the
  -- others: the capital exactly if one of shift and caps lock is on, but not both.
  pub letter_lem :
      (k : Keyboard) (code : ℕ)
      → is_letter code ≡ true
      → k.ctrl_status ≡ false
      → k.ext_scancode ≡ false
      → IsValid k.kbd_buf
      → held k.kbd_buf ≢ bufsize - 1
      → (k' : Keyboard) × (intr_keyboard_handler false cur k code ≡ ok k')
        × (contents k'.kbd_buf ≡ contents k.kbd_buf ++ cased k (letter_of code) ∷ [])
  letter_lem k code l ctrl ext v room =
      let key = is_letter-LetterKey code l in
      let k1 = record k { ext_scancode = false } in
      let (q', e, _, added) = type_char-room cur k1 (cased k (letter_of code)) v room in
      (record k1 { kbd_buf = q' }, intr_keyboard_handler-letter k code key ctrl ext ∙ e, added)

-- The status keys, and the bytes that the controller sends for them.
pub data StatusKey : Type 0 where
  ctrl_l ctrl_r shift_l shift_r alt_l alt_r : StatusKey

abbrev pub make_bytes : StatusKey → List ℕ
make_bytes ctrl_l = 0x1d ∷ []
make_bytes ctrl_r = 0xe0 ∷ 0x1d ∷ []
make_bytes shift_l = 0x2a ∷ []
make_bytes shift_r = 0x36 ∷ []
make_bytes alt_l = 0x38 ∷ []
make_bytes alt_r = 0xe0 ∷ 0x38 ∷ []

abbrev pub break_bytes : StatusKey → List ℕ
break_bytes ctrl_l = 0x9d ∷ []
break_bytes ctrl_r = 0xe0 ∷ 0x9d ∷ []
break_bytes shift_l = 0xaa ∷ []
break_bytes shift_r = 0xb6 ∷ []
break_bytes alt_l = 0xb8 ∷ []
break_bytes alt_r = 0xe0 ∷ 0xb8 ∷ []

abbrev pub with_status : StatusKey → Bool → Keyboard → Keyboard
with_status ctrl_l b k = record k { ctrl_status = b }
with_status ctrl_r b k = record k { ctrl_status = b }
with_status shift_l b k = record k { shift_status = b }
with_status shift_r b k = record k { shift_status = b }
with_status alt_l b k = record k { alt_status = b }
with_status alt_r b k = record k { alt_status = b }

-- One interrupt for each byte.
unfoldable pub interrupts : Ptr → List ℕ → Keyboard → Result Keyboard
interrupts cur [] k = ok k
interrupts cur (byte ∷ bytes) k =
    intr_keyboard_handler false cur k byte >>= λ k'. interrupts cur bytes k'

-- Between two keys, pressing a status key sets its flag and releasing it clears the flag, whatever
-- the other flags are, and nothing else changes.
pub status_key_lem :
    (cur : Ptr) (key : StatusKey) (k : Keyboard)
    → k.ext_scancode ≡ false
    → (interrupts cur (make_bytes key) k ≡ ok (with_status key true k))
      × (interrupts cur (break_bytes key) k ≡ ok (with_status key false k))
unfolding interrupts intr_keyboard_handler handle_code press char_of hold release
status_key_lem cur ctrl_l k e = (ground arith, ground arith)
status_key_lem cur ctrl_r k e = (ground arith, ground arith)
status_key_lem cur shift_l k e = (ground arith, ground arith)
status_key_lem cur shift_r k e = (ground arith, ground arith)
status_key_lem cur alt_l k e = (ground arith, ground arith)
status_key_lem cur alt_r k e = (ground arith, ground arith)
