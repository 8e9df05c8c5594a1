-- ===== src/CString.antt =====
-- lib/kernel/string.c over a memory of bytes: the functions on strings that end in a zero byte, and
-- `memset` and `memcpy`. A loop without a bound runs on fuel and gives `none` when that is used up.
-- Addresses do not wrap. A failed `assert` ends the run.
pub mod Strings
pub mod Copy
mod Tests
use mcy_os.Prelude.{
  ℕ, zero, suc, ◌+◌, ◌-◌, ◌*◌, ◌/◌, ◌%◌, ◌^◌, ◌≤◌, ◌<◌, ◌≡◌, refl, sym, ap, ap₂, subst, ◌∙◌, ◌≢◌,
  ◌↔◌, ◌⊎◌, inl, inr, Bool, true, false, not, ◌&&◌, ◌||◌, Option, none, some, List, [], ◌∷◌, ◌++◌,
  arith, dec_lt, ℕ_discrete, all_below, all_below_sound, ltb, leb, ◌==◌, if◌then◌else◌, ltb→lt,
  lt→ltb, le→not_ltb, ==_iff, ==_refl, ==_ne, Bool-cases, and_left, and_right, minus_one, add32,
  sub32, get_or, take, drop, replicate, length-append, length-set, get_or-set_self, get_or-set_ne,
  get_or-set, get_or_outside, length-replicate, get_or-replicate, Result, ok, panic, ◌>>=◌, ◌>>◌,
  assert,
}

abbrev pub Bytes : Type 0
Bytes = ℕ → ℕ

abbrev pub store : ℕ → ℕ → Bytes → Bytes
store p byte m a = if a == p then byte else m a

abbrev pub not_null : ℕ → Bool
not_null p = not (p == 0)

unfoldable pub memset_loop : ℕ → ℕ → ℕ → Bytes → Bytes
memset_loop zero dst value m = m
memset_loop (suc size) dst value m = memset_loop size (dst + 1) value (store dst value m)

unfoldable pub memset : ℕ → ℕ → ℕ → Bytes → Result Bytes
memset dst value size m = assert (not_null dst) >> ok (memset_loop size dst value m)

unfoldable pub memcpy_loop : ℕ → ℕ → ℕ → Bytes → Bytes
memcpy_loop zero dst src m = m
memcpy_loop (suc size) dst src m = memcpy_loop size (dst + 1) (src + 1) (store dst (m src) m)

unfoldable pub memcpy : ℕ → ℕ → ℕ → Bytes → Result Bytes
memcpy dst src size m = assert (not_null dst && not_null src) >> ok (memcpy_loop size dst src m)

-- `while (*p++)`: the address of the zero byte.
unfoldable pub find_end : ℕ → ℕ → Bytes → Option ℕ
find_end zero p m = none
find_end (suc fuel) p m = let rest = find_end fuel (p + 1) m in if m p == 0 then some p else rest

unfoldable pub strlen : ℕ → ℕ → Bytes → Result (Option ℕ)
strlen fuel str m =
    assert (not_null str)
    >> ok (elim (find_end fuel str m) [ none ↦ none | some e ↦ some (e - str) ])

-- The answer of `strcmp`; `char` is signed.
pub data Order : Type 0 where
  less same greater : Order

abbrev pub char_lt : ℕ → ℕ → Bool
char_lt a b = ltb ((a + 128) % 256) ((b + 128) % 256)

unfoldable pub strcmp_loop : ℕ → ℕ → ℕ → Bytes → Option Order
strcmp_loop zero a b m = none
strcmp_loop (suc fuel) a b m =
    let rest = strcmp_loop fuel (a + 1) (b + 1) m in
    let here =
      if char_lt (m a) (m b) then less else if char_lt (m b) (m a) then greater else same in
    if not (m a == 0) && m a == m b then rest else some here

unfoldable pub strcmp : ℕ → ℕ → ℕ → Bytes → Result (Option Order)
strcmp fuel a b m = assert (not_null a && not_null b) >> ok (strcmp_loop fuel a b m)

-- `while ((*dst++ = *src++))`
unfoldable pub copy_loop : ℕ → ℕ → ℕ → Bytes → Option Bytes
copy_loop zero dst src m = none
copy_loop (suc fuel) dst src m =
    let copied = store dst (m src) m in
    let rest = copy_loop fuel (dst + 1) (src + 1) copied in if m src == 0 then some copied else rest

unfoldable pub strcpy : ℕ → ℕ → ℕ → Bytes → Result (Option Bytes)
strcpy fuel dst src m = assert (not_null dst && not_null src) >> ok (copy_loop fuel dst src m)

unfoldable pub strcat : ℕ → ℕ → ℕ → Bytes → Result (Option Bytes)
strcat fuel dst src m =
    assert (not_null dst && not_null src)
    >> ok (elim (find_end fuel dst m) [ none ↦ none | some e ↦ copy_loop fuel e src m ])
