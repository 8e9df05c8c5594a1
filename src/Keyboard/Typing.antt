-- ===== src/Keyboard/Typing.antt =====
-- What the keys type, and what the status keys do.
use mcy_os.Prelude.{
  ℕ, suc, ◌+◌, ◌-◌, ◌/◌, ◌%◌, ◌≡◌, refl, sym, ap, subst, ◌∙◌, ◌≢◌, inl, inr, Bool, true, false,
  List, [], ◌∷◌, ◌++◌, arith, ℕ_discrete, ◌==◌, if◌then◌else◌, Bool-cases, Result, ok, ◌>>=◌,
}
use mcy_os.LinkedList.{Ptr}
use mcy_os.Ioqueue.{Ioqueue, full, putchar, bufsize}
use mcy_os.Ioqueue.Fifo.{IsValid, contents, held, putchar_lem}
use mcy_os.Keyboard.{
  Keyboard, is_known, with_queue, release, char_of, hold, type_char, press, handle_code,
  intr_keyboard_handler,
}

-- One handler leaves the queue as it is or puts one character that is not zero behind the others.
pub data Typed (before : List ℕ) (after : List ℕ) : Type 0 where
  nothing : after ≡ before → Typed before after
  char : (c : ℕ) → c ≢ 0 → after ≡ before ++ c ∷ [] → Typed before after

abbrev pub Handled : Result Keyboard → Keyboard → Type 0
Handled r k =
    (k' : Keyboard) × (r ≡ ok k')
    × IsValid k'.kbd_buf
    × Typed (contents k.kbd_buf) (contents k'.kbd_buf)

module _ (cur : Ptr) where
  full-room : (q : Ioqueue) → IsValid q → held q ≢ bufsize - 1 → full false cur q ≡ ok false
  unfolding full
  full-room q v h = ground arith

  full-full : (q : Ioqueue) → IsValid q → held q ≡ bufsize - 1 → full false cur q ≡ ok true
  unfolding full
  full-full q v h = ground arith

  -- What is left to do after the test for room.
  abbrev after_test : Keyboard → ℕ → Bool → Result Keyboard
  after_test k c no_room = if no_room then ok k else putchar false cur k.kbd_buf c >>= with_queue k

  pub type_char-room :
      (k : Keyboard) (c : ℕ)
      → IsValid k.kbd_buf
      → held k.kbd_buf ≢ bufsize - 1
      → (q' : Ioqueue) × (type_char false cur k c ≡ ok (record k { kbd_buf = q' }))
        × IsValid q'
        × (contents q' ≡ contents k.kbd_buf ++ c ∷ [])
  unfolding type_char
  type_char-room k c v h =
      let (q', e, v', added, _, _) = putchar_lem k.kbd_buf v cur c h in
      (
        q',
        ap (λ m. m >>= after_test k c) (full-room k.kbd_buf v h) ∙ ap (λ m. m >>= with_queue k) e,
        v',
        added,
      )

  type_char-full :
      (k : Keyboard) (c : ℕ)
      → IsValid k.kbd_buf
      → held k.kbd_buf ≡ bufsize - 1
      → type_char false cur k c ≡ ok k
  unfolding type_char
  type_char-full k c v h = ap (λ m. m >>= after_test k c) (full-full k.kbd_buf v h)

  type_char-Handled :
      (k : Keyboard) (c : ℕ) → IsValid k.kbd_buf → c ≢ 0 → Handled (type_char false cur k c) k
  type_char-Handled k c v nonzero = elim (ℕ_discrete (held k.kbd_buf) (bufsize - 1)) [
    | yes h ↦ (k, type_char-full k c v h, v, nothing refl)
    | no h ↦
        let (q', e, v', added) = type_char-room k c v h in
        (record k { kbd_buf = q' }, e, v', char c nonzero added)
  ]

  hold-kbd_buf : (k : Keyboard) (code : ℕ) → (hold k code).kbd_buf ≡ k.kbd_buf
  unfolding hold
  hold-kbd_buf k code = ground arith

  release-kbd_buf : (k : Keyboard) (code : ℕ) → (release k code).kbd_buf ≡ k.kbd_buf
  unfolding release
  release-kbd_buf k code = ground arith

  press-Handled : (k : Keyboard) (code : ℕ) → IsValid k.kbd_buf → Handled (press false cur k code) k
  unfolding press
  press-Handled k code v = elim (ℕ_discrete (char_of k code) 0) [
    | yes h ↦ (
      hold k code,
      ground (arith, h),
      subst IsValid (sym (hold-kbd_buf k code)) v,
      nothing (ap contents (hold-kbd_buf k code)),
    )
    | no h ↦
        let (k', e, v', t) = type_char-Handled k (char_of k code) v h in
        (k', ground (arith, h) ∙ e, v', t)
  ]

  handle_code-Handled :
      (k : Keyboard) (code : ℕ)
      → IsValid k.kbd_buf
      → k.console_held ≡ false
      → Handled (handle_code false cur k code) k
  unfolding handle_code
  handle_code-Handled k code v idle = elim (Bool-cases (code / 0x80 % 2 == 1)) [
    | inl broken ↦ (
      release k (code - 0x80),
      rw broken,
      subst IsValid (sym (release-kbd_buf k (code - 0x80))) v,
      nothing (ap contents (release-kbd_buf k (code - 0x80))),
    )
    | inr made ↦ elim (Bool-cases (is_known code)) [
      | inl known ↦ let (k', e, v', t) = press-Handled k code v in (k', rw (made, known) e, v', t)
      | inr unknown ↦ (
        record k { unknown_keys = suc k.unknown_keys },
        rw (made, unknown, idle),
        v,
        nothing refl,
      )
    ]
  ]

  -- With interrupts off, a valid queue, and no task that holds the lock of the console, the handler
  -- returns for every byte: it never waits, it keeps the queue valid, and it puts at most one
  -- character, which is not zero, behind the others.
  pub intr_keyboard_handler_lem :
      (k : Keyboard) (byte : ℕ)
      → IsValid k.kbd_buf
      → k.console_held ≡ false
      → Handled (intr_keyboard_handler false cur k byte) k
  unfolding intr_keyboard_handler
  intr_keyboard_handler_lem k byte v idle = elim (Bool-cases (byte == 0xe0)) [
    | inl prefix ↦ (record k { ext_scancode = true }, rw prefix, v, nothing refl)
    | inr code ↦
        let (k', e, v', t) =
          handle_code-Handled (record k { ext_scancode = false })
            (if k.ext_scancode then 0xe000 + byte else byte) v idle in
        (k', rw code e, v', t)
  ]
