-- ===== src/Heap/Counts.antt =====
-- Lists of blocks without repetition, and how many of their members a test holds for.
use mcy_os.Prelude.{
  ℕ, suc, ◌+◌, ◌≤◌, ◌≡◌, refl, sym, ap, ◌∙◌, inl, inr, Bool, true, false, not, ◌&&◌, ◌||◌, List, [],
  ◌∷◌, ◌++◌, arith, ℕ_discrete, ◌==◌, if◌then◌else◌, Bool-cases, length,
}
use mcy_os.Heap.{elem, remove}

abbrev pub Nodup : List ℕ → Type 0
Nodup [] = Unit
Nodup (b ∷ bs) = (elem b bs ≡ false) × Nodup bs

unfoldable pub count_where : (ℕ → Bool) → List ℕ → ℕ
count_where p [] = 0
count_where p (b ∷ bs) = (if p b then 1 else 0) + count_where p bs

pub elem-append : (c : ℕ) (xs ys : List ℕ) → elem c (xs ++ ys) ≡ (elem c xs || elem c ys)
elem-append c [] ys = refl
elem-append c (x ∷ xs) ys = ground (arith, elem-append c xs ys)

pub elem-remove :
    (b c : ℕ) (xs : List ℕ) → Nodup xs → elem c (remove b xs) ≡ (elem c xs && not (b == c))
elem-remove b c [] u = refl
elem-remove b c (x ∷ xs) (new, u) = elim (ℕ_discrete b c) [
  | yes same ↦
      let gone : elem b xs ≡ elem c xs = ap (λ (z : ℕ). elem z xs) same in
      elim (ℕ_discrete x b) [
        | yes here ↦
            let first : elem x xs ≡ elem c xs = ap (λ (z : ℕ). elem z xs) (here ∙ same) in
            ground (arith, new, first, here, same)
        | no other ↦ ground (arith, elem-remove b c xs u, other, same)
      ]
  | no apart ↦ ground (arith, elem-remove b c xs u, apart)
]

pub Nodup-remove : (b : ℕ) (xs : List ℕ) → Nodup xs → Nodup (remove b xs)
Nodup-remove b [] u = tt
Nodup-remove b (x ∷ xs) (new, u) = elim (Bool-cases (x == b)) [
  | inl here ↦ rw here u
  | inr other ↦ rw other (ground (arith, elem-remove b x xs u, new), Nodup-remove b xs u)
]

pub Nodup-snoc : (b : ℕ) (xs : List ℕ) → Nodup xs → elem b xs ≡ false → Nodup (xs ++ b ∷ [])
Nodup-snoc b [] u new = (refl, tt)
Nodup-snoc b (x ∷ xs) (first, u) new =
    (ground (arith, elem-append x xs (b ∷ []), first, new), Nodup-snoc b xs u (ground (arith, new)))

pub Nodup-middle : (b : ℕ) (xs ys : List ℕ) → Nodup (xs ++ b ∷ ys) → elem b xs ≡ false
Nodup-middle b [] ys u = refl
Nodup-middle b (x ∷ xs) ys (first, u) =
    ground (arith, elem-append x xs (b ∷ ys), first, Nodup-middle b xs ys u)

-- Two tests that differ at one value only, which the first one refuses.
module _ (p q : ℕ → Bool) (b : ℕ) (change : (c : ℕ) → q c ≡ (if b == c then true else p c)) where
  pub count_where-same : (bs : List ℕ) → elem b bs ≡ false → count_where q bs ≡ count_where p bs
  unfolding count_where
  count_where-same [] out = refl
  count_where-same (c ∷ bs) out =
      ground (arith, change c, count_where-same bs (ground (arith, out)))

  pub count_where-more :
      (bs : List ℕ)
      → p b ≡ false
      → Nodup bs
      → elem b bs ≡ true
      → count_where q bs ≡ suc (count_where p bs)
  unfolding count_where
  count_where-more [] clear u within = cc
  count_where-more (c ∷ bs) clear (new, u) within = elim (ℕ_discrete b c) [
    | yes here ↦
        let old : p c ≡ false = ap p (sym here) ∙ clear in
        let out : elem b bs ≡ false = ap (λ (z : ℕ). elem z bs) here ∙ new in
        ground (arith, change c, old, here, count_where-same bs out)
    | no other ↦ ground (arith, change c, other, within, count_where-more bs clear u)
  ]

pub count_where-ext :
    (p q : ℕ → Bool) (bs : List ℕ)
    → ((c : ℕ) → elem c bs ≡ true → p c ≡ q c)
    → count_where p bs ≡ count_where q bs
unfolding count_where
count_where-ext p q [] same = refl
count_where-ext p q (c ∷ bs) same =
    let first : p c ≡ q c = same c (ground arith) in
    let later = count_where-ext p q bs (λ x h. same x (ground (arith, h))) in
    ground (arith, first, later)

pub count_where-le : (p : ℕ → Bool) (bs : List ℕ) → count_where p bs ≤ length bs
unfolding count_where
count_where-le p [] = omega arith
count_where-le p (c ∷ bs) = ground (arith, count_where-le p bs)

-- Where the test holds as often as there are members, it holds for each.
pub count_where-full :
    (p : ℕ → Bool) (bs : List ℕ)
    → count_where p bs ≡ length bs
    → (c : ℕ) → elem c bs ≡ true
    → p c ≡ true
unfolding count_where
count_where-full p [] full c within = cc
count_where-full p (b ∷ bs) full c within = elim (ℕ_discrete b c) [
  | yes here ↦ ground (arith, count_where-le p bs, full, ap p here)
  | no other ↦
      count_where-full p bs (ground (arith, count_where-le p bs, full)) c
        (ground (arith, other, within))
]

pub count_where-all :
    (p : ℕ → Bool) (bs : List ℕ)
    → ((c : ℕ) → elem c bs ≡ true → p c ≡ true)
    → count_where p bs ≡ length bs
unfolding count_where
count_where-all p [] all = refl
count_where-all p (b ∷ bs) all =
    let first : p b ≡ true = all b (ground arith) in
    ground (arith, first, count_where-all p bs (λ c h. all c (ground (arith, h))))
