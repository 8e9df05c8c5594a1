-- ===== src/Keyboard/Tests.antt =====
-- An idle keyboard with caps lock on and an empty queue.
use mcy_os.Prelude.{refl, ℕ, true, false, [], arith, replicate, length-replicate}
use mcy_os.LinkedList.{null}
use mcy_os.Ioqueue.{bufsize}
use mcy_os.Ioqueue.Fifo.{IsValid}
use mcy_os.Keyboard.{Keyboard, intr_keyboard_handler}
use mcy_os.Keyboard.Typing.{Handled, intr_keyboard_handler_lem}

abbrev zero_byte : ℕ
zero_byte = 0

abbrev caps : Keyboard
caps = record {
  ctrl_status = false;
  shift_status = false;
  alt_status = false;
  caps_lock_status = true;
  ext_scancode = false;
  kbd_buf = record {
    producer = null;
    consumer = 4;
    buf = replicate bufsize zero_byte;
    head = 0;
    tail = 0;
    unblocked = [];
  };
  unknown_keys = 0;
  console_held = false;
}

caps-IsValid : IsValid caps.kbd_buf
caps-IsValid = record {
  sized = length-replicate bufsize zero_byte;
  head_in = omega arith;
  tail_in = omega arith;
}

intr_keyboard_handler_lem_example : Handled (intr_keyboard_handler false 1 caps 0x10) caps
intr_keyboard_handler_lem_example = intr_keyboard_handler_lem 1 caps 0x10 caps-IsValid refl
