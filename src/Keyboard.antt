-- ===== src/Keyboard.antt =====
-- device/keyboard.c: the interrupt handler, which turns the scan codes of the controller into
-- characters in the keyboard's queue. A character is its code, and `inb(KBD_BUF_PORT)` an argument.
-- The only bit masks are on a scan code that is one byte, with 0xe0 above it or not.
pub mod Typing
pub mod Keys
mod Tests
use mcy_os.Prelude.{
  ℕ, zero, suc, ◌+◌, ◌-◌, ◌*◌, ◌/◌, ◌%◌, ◌^◌, ◌≤◌, ◌<◌, ◌≡◌, refl, sym, ap, ap₂, subst, ◌∙◌, ◌≢◌,
  ◌↔◌, ◌⊎◌, inl, inr, Bool, true, false, not, ◌&&◌, ◌||◌, Option, none, some, List, [], ◌∷◌, ◌++◌,
  arith, dec_lt, ℕ_discrete, all_below, all_below_sound, ltb, leb, ◌==◌, if◌then◌else◌, ltb→lt,
  lt→ltb, le→not_ltb, ==_iff, ==_refl, ==_ne, Bool-cases, minus_one, add32, sub32, length, get_or,
  set, take, drop, replicate, length-append, length-set, get_or-set_self, get_or-set_ne, get_or-set,
  get_or_outside, length-replicate, get_or-replicate, Result, ok, panic, ◌>>=◌, ◌>>◌, assert,
}
use mcy_os.LinkedList.{Ptr}
use mcy_os.Ioqueue.{Ioqueue, Attempt, done, sleeps, full, putchar}

-- `char keymap[][2]`: a key's character without and with shift.
abbrev pub keymap : List (ℕ × ℕ)
keymap =
    (0, 0)
    ∷ (27, 27)
    ∷ (49, 33)
    ∷ (50, 64)
    ∷ (51, 35)
    ∷ (52, 36)
    ∷ (53, 37)
    ∷ (54, 94)
    ∷ (55, 38)
    ∷ (56, 42)
    ∷ (57, 40)
    ∷ (48, 41)
    ∷ (45, 95)
    ∷ (61, 43)
    ∷ (8, 8)
    ∷ (9, 9)
    ∷ (113, 81)
    ∷ (119, 87)
    ∷ (101, 69)
    ∷ (114, 82)
    ∷ (116, 84)
    ∷ (121, 89)
    ∷ (117, 85)
    ∷ (105, 73)
    ∷ (111, 79)
    ∷ (112, 80)
    ∷ (91, 123)
    ∷ (93, 125)
    ∷ (13, 13)
    ∷ (0, 0)
    ∷ (97, 65)
    ∷ (115, 83)
    ∷ (100, 68)
    ∷ (102, 70)
    ∷ (103, 71)
    ∷ (104, 72)
    ∷ (106, 74)
    ∷ (107, 75)
    ∷ (108, 76)
    ∷ (59, 58)
    ∷ (39, 34)
    ∷ (96, 126)
    ∷ (0, 0)
    ∷ (92, 124)
    ∷ (122, 90)
    ∷ (120, 88)
    ∷ (99, 67)
    ∷ (118, 86)
    ∷ (98, 66)
    ∷ (110, 78)
    ∷ (109, 77)
    ∷ (44, 60)
    ∷ (46, 62)
    ∷ (47, 63)
    ∷ (0, 0)
    ∷ (42, 42)
    ∷ (0, 0)
    ∷ (32, 32)
    ∷ (0, 0)
    ∷ []

-- The globals of the driver. `unknown_keys` counts the lines "unknown key" on the console, and
-- `console_held` says whether a task holds `console_lock`.
pub record Keyboard : Type 0 where
  pub ctrl_status : Bool
  pub shift_status : Bool
  pub alt_status : Bool
  pub caps_lock_status : Bool
  pub ext_scancode : Bool
  pub kbd_buf : Ioqueue
  pub unknown_keys : ℕ
  pub console_held : Bool

-- `a + b == true` of two flags
abbrev pub exactly_one : Bool → Bool → Bool
exactly_one a b = if a then not b else b

abbrev is_ctrl : ℕ → Bool
is_ctrl code = code == 0x1d || code == 0xe01d

abbrev is_shift : ℕ → Bool
is_shift code = code == 0x2a || code == 0x36

abbrev is_alt : ℕ → Bool
is_alt code = code == 0x38 || code == 0xe038

-- The part for a break code, given the make code.
unfoldable pub release : Keyboard → ℕ → Keyboard
release k make_code =
    if is_ctrl make_code
    then record k { ctrl_status = false }
    else if is_shift make_code
    then record k { shift_status = false }
    else if is_alt make_code
    then record k { alt_status = false }
    else k

-- The keys of digits and signs, which caps lock leaves alone.
abbrev pub has_two_signs : ℕ → Bool
has_two_signs code =
    ltb code 0x0e
    || code == 0x29
    || code == 0x1a
    || code == 0x1b
    || code == 0x2b
    || code == 0x27
    || code == 0x28
    || code == 0x33
    || code == 0x34
    || code == 0x35

-- `cur_char`, with `l` and `u` under ctrl moved to 11 and 20.
unfoldable pub char_of : Keyboard → ℕ → ℕ
char_of k scancode =
    let both = exactly_one k.shift_status k.caps_lock_status in
    let shift = if has_two_signs scancode then k.shift_status else both in
    let chars = get_or keymap (scancode % 256) (0, 0) in
    let cur_char = if shift then chars.1 else chars.0 in
    if k.ctrl_status && (cur_char == 108 || cur_char == 117) then cur_char - 97 else cur_char

-- The status keys, which have no character.
unfoldable pub hold : Keyboard → ℕ → Keyboard
hold k scancode =
    if is_ctrl scancode
    then record k { ctrl_status = true }
    else if is_shift scancode
    then record k { shift_status = true }
    else if is_alt scancode
    then record k { alt_status = true }
    else if scancode == 0x3a
    then record k { caps_lock_status = not k.caps_lock_status }
    else k

abbrev pub is_known : ℕ → Bool
is_known code = (ltb 0 code && ltb code 0x3b) || code == 0xe038 || code == 0xe01d

-- After a put the handler goes on with the new queue. A wait in it, which the test for room rules
-- out, would end the run.
abbrev pub with_queue : Keyboard → Attempt (Unit {0}) → Result Keyboard
with_queue k (done _ q) = ok (record k { kbd_buf = q })
with_queue k (sleeps q) = panic

module _ (intr_on : Bool) (cur : Ptr) where
  unfoldable pub type_char : Keyboard → ℕ → Result Keyboard
  type_char k cur_char = do
    no_room ← full intr_on cur k.kbd_buf
    if no_room then ok k else putchar intr_on cur k.kbd_buf cur_char >>= with_queue k

  -- The part for a make code.
  unfoldable pub press : Keyboard → ℕ → Result Keyboard
  press k scancode =
      let cur_char = char_of k scancode in
      if cur_char == 0 then ok (hold k scancode) else type_char k cur_char

  -- `scancode` is the whole code, with 0xe0 above where the byte before was 0xe0.
  -- `console_put_str` takes the lock of the console. Where a task holds it the handler would go to
  -- sleep, in place of the task that it has interrupted, and the model stops.
  unfoldable pub handle_code : Keyboard → ℕ → Result Keyboard
  handle_code k scancode =
      let pressed = press k scancode in
      let unknown =
        assert (not k.console_held) >> ok (record k { unknown_keys = suc k.unknown_keys }) in
      let break_code = scancode / 0x80 % 2 == 1 in
      if break_code
      then ok (release k (scancode - 0x80))
      else if is_known scancode
      then pressed
      else unknown

  unfoldable pub intr_keyboard_handler : Keyboard → ℕ → Result Keyboard
  intr_keyboard_handler k byte =
      let code = if k.ext_scancode then 0xe000 + byte else byte in
      let handled = handle_code (record k { ext_scancode = false }) code in
      if byte == 0xe0 then ok (record k { ext_scancode = true }) else handled
