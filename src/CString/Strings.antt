-- ===== src/CString/Strings.antt =====
-- The functions on strings as functions on sequences of characters.
use mcy_os.Prelude.{
  ℕ, zero, suc, ◌+◌, ◌<◌, ◌≡◌, refl, sym, ap, ap₂, ◌∙◌, ◌≢◌, Bool, true, false, some, List, [], ◌∷◌,
  arith, ℕ_discrete, if◌then◌else◌, ==_ne, length, get_or, drop, ok,
}
use mcy_os.CString.{
  Bytes, find_end, strlen, Order, less, same, greater, char_lt, strcmp_loop, strcmp,
}

-- The string `s` stands at `p`: its characters, none of them zero, and a zero byte.
abbrev pub Holds : Bytes → ℕ → List ℕ → Type 0
Holds m p [] = m p ≡ 0
Holds m p (c ∷ s) = (m p ≡ c) × (c ≢ 0) × (c < 256) × Holds m (p + 1) s

find_end_lem :
    (s : List ℕ) (fuel p : ℕ) (m : Bytes)
    → Holds m p s
    → length s < fuel
    → find_end fuel p m ≡ some (p + length s)
unfolding find_end
find_end_lem s zero p m h enough = absurd (omega arith)
find_end_lem [] (suc fuel) p m h enough = rw h (ap some (omega arith))
find_end_lem (c ∷ s) (suc fuel) p m h enough =
    rw (h.0, ==_ne c 0 (h.1))
      (find_end_lem s fuel (p + 1) m (h.3) (omega arith) ∙ ap some (omega arith))

-- On fuel for more rounds than characters, `strlen` of a string that is not at NULL is its length.
pub strlen_lem :
    (s : List ℕ) (fuel p : ℕ) (m : Bytes)
    → p ≢ 0
    → Holds m p s
    → length s < fuel
    → strlen fuel p m ≡ ok (some (length s))
unfolding strlen
strlen_lem s fuel p m not_zero h enough =
    rw (==_ne p 0 not_zero, find_end_lem s fuel p m h enough) (ap (λ n. ok (some n)) (omega arith))

-- Whether the answer of `strcmp` is 0.
abbrev pub is_same : Order → Bool
is_same same = true
is_same _ = false

-- Where two different characters meet, the loop ends and does not answer `same`.
differ :
    (fuel a b : ℕ) (m : Bytes)
    → m a ≢ m b
    → m a < 256
    → m b < 256
    → (r : Order) × (strcmp_loop (suc fuel) a b m ≡ some r) × (is_same r ≡ false)
unfolding strcmp_loop
differ fuel a b m apart small_a small_b =
    let order =
      if char_lt (m a) (m b) then less else if char_lt (m b) (m a) then greater else same in
    (order, ground (arith, apart), ground (arith, apart))

differ_all :
    (s t : List ℕ) (fuel a b : ℕ) (m : Bytes)
    → m a ≢ m b
    → m a < 256
    → m b < 256
    → get_or s 0 0 ≡ m a
    → get_or t 0 0 ≡ m b
    → (r : Order) × (strcmp_loop (suc fuel) a b m ≡ some r)
      × ((is_same r ≡ true) → s ≡ t)
      × ((s ≡ t) → is_same r ≡ true)
differ_all s t fuel a b m apart small_a small_b head_s head_t =
    let (r, e, differs) = differ fuel a b m apart small_a small_b in
    (
      r,
      e,
      λ says. absurd (ground (arith, differs, says)),
      λ eq. absurd (apart (sym head_s ∙ ap (λ l. get_or l 0 0) eq ∙ head_t)),
    )

goes_on :
    (fuel a b : ℕ) (m : Bytes)
    → m a ≡ m b
    → m a ≢ 0
    → strcmp_loop (suc fuel) a b m ≡ strcmp_loop fuel (a + 1) (b + 1) m
unfolding strcmp_loop
goes_on fuel a b m eq not_end = ground (arith, eq, not_end)

strcmp_loop_lem :
    (s t : List ℕ) (fuel a b : ℕ) (m : Bytes)
    → Holds m a s
    → Holds m b t
    → length s < fuel
    → (r : Order) × (strcmp_loop fuel a b m ≡ some r)
      × ((is_same r ≡ true) → s ≡ t)
      × ((s ≡ t) → is_same r ≡ true)
unfolding strcmp_loop
strcmp_loop_lem s t zero a b m hs ht enough = absurd (omega arith)
strcmp_loop_lem [] [] (suc fuel) a b m hs ht enough = (same, rw (hs, ht), λ _. refl, λ _. refl)
strcmp_loop_lem [] (d ∷ t) (suc fuel) a b m hs ht enough =
    differ_all [] (d ∷ t) fuel a b m (λ e. ht.1 (sym (ht.0) ∙ sym e ∙ hs)) (omega (arith, hs))
      (omega (arith, ht)) (sym hs) (sym (ht.0))
strcmp_loop_lem (c ∷ s) [] (suc fuel) a b m hs ht enough =
    differ_all (c ∷ s) [] fuel a b m (λ e. hs.1 (sym (hs.0) ∙ e ∙ ht)) (omega (arith, hs))
      (omega (arith, ht)) (sym (hs.0)) (sym ht)
strcmp_loop_lem (c ∷ s) (d ∷ t) (suc fuel) a b m hs ht enough = elim (ℕ_discrete c d) [
  | no apart ↦
      differ_all (c ∷ s) (d ∷ t) fuel a b m (λ e. apart (sym (hs.0) ∙ e ∙ ht.0)) (omega (arith, hs))
        (omega (arith, ht)) (sym (hs.0)) (sym (ht.0))
  | yes eq ↦
      let (r, e, to, from) =
        strcmp_loop_lem s t fuel (a + 1) (b + 1) m (hs.3) (ht.3) (omega arith) in
      (
        r,
        goes_on fuel a b m (hs.0 ∙ eq ∙ sym (ht.0)) (λ z. hs.1 (sym (hs.0) ∙ z)) ∙ e,
        λ says. ap₂ ◌∷◌ eq (to says),
        λ both. from (ap (drop 1) both),
      )
]

-- On fuel for more rounds than the first string has characters, `strcmp` of two strings that are
-- not at NULL answers, and the answer is 0 exactly if the strings are equal.
pub strcmp_lem :
    (s t : List ℕ) (fuel a b : ℕ) (m : Bytes)
    → a ≢ 0
    → b ≢ 0
    → Holds m a s
    → Holds m b t
    → length s < fuel
    → (r : Order) × (strcmp fuel a b m ≡ ok (some r))
      × ((is_same r ≡ true) → s ≡ t)
      × ((s ≡ t) → is_same r ≡ true)
unfolding strcmp
strcmp_lem s t fuel a b m a_ok b_ok hs ht enough =
    let (r, e, to, from) = strcmp_loop_lem s t fuel a b m hs ht enough in
    (r, rw (==_ne a 0 a_ok, ==_ne b 0 b_ok, e), to, from)
