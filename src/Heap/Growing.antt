-- ===== src/Heap/Growing.antt =====
-- A new arena for a descriptor whose free list is empty.
use mcy_os.Prelude.{
  ℕ, zero, suc, ◌+◌, ◌%◌, ◌^◌, ◌<◌, ◌≡◌, refl, sym, ap, ap₂, subst, ◌∙◌, ◌≢◌, inl, inr, Bool, true,
  false, not, ◌&&◌, Option, none, some, List, [], ◌∷◌, ◌++◌, ℕ_discrete, ==_refl, ==_ne, Bool-cases,
  ok,
}
use mathlib.Core.List.{append_assoc, append-nil}
use mcy_os.Memory.{null, pg_size, Memory, malloc_page}
use mcy_os.Memory.Arena.{desc_at, arena2block, block2arena}
use mcy_os.Heap.{
  ArenaHead, HeapState, with_free_list, with_arena, elem, pool_of, add_blocks, small_arena,
  new_arena,
}
use mcy_os.Heap.Counts.{Nodup, Nodup-middle, count_where-ext, count_where-all}
use mcy_os.Heap.Blocks.{blocks_from, blocks, length-blocks, block2arena-elem, blocks-Nodup}
use mcy_os.Heap.Invariant.{IsArena, InArena, IsHeap, is_out, out_in, out_of}

add_blocks_lem :
    (left a i idx : ℕ) (xs : List ℕ)
    → Nodup (xs ++ blocks_from left a i idx)
    → add_blocks left a i idx xs ≡ ok (xs ++ blocks_from left a i idx)
unfolding add_blocks blocks_from
add_blocks_lem zero a i idx xs u = ap ok (sym (append-nil xs))
add_blocks_lem (suc left) a i idx xs u =
    let b = arena2block a (desc_at i) idx in
    let more = blocks_from left a i (idx + 1) in
    let assoc : (xs ++ b ∷ []) ++ more ≡ xs ++ b ∷ more = append_assoc xs (b ∷ []) more in
    rw (Nodup-middle b xs more u)
      (add_blocks_lem left a i (idx + 1) (xs ++ b ∷ []) (subst Nodup (sym assoc) u) ∙ ap ok assoc)

-- A page was given at which no arena begins.
pub record NewPage (h : HeapState) (m : Memory) (a : ℕ) : Type 0 where
  pub given : malloc_page (pool_of h) 1 h.memory ≡ ok (m, a)
  pub some_page : a ≢ null
  pub aligned : a % pg_size ≡ 0
  pub word : a < 2 ^ 32
  pub unused : h.arenas a ≡ none

module _ (h : HeapState) (v : IsHeap h) (i : ℕ) (small : i < 7) (empty : h.free_list i ≡ [])
    (m : Memory) (a : ℕ) (p : NewPage h m a) where
  abbrev pub grown : HeapState
  grown =
      with_free_list i (blocks a i) (with_arena a (some (small_arena i)) (record h { memory = m }))

  pub new_arena-ok : new_arena i h ≡ ok (grown, true)
  unfolding new_arena blocks
  new_arena-ok =
      let all =
        add_blocks_lem (desc_at i).block_per_arena a i 0 []
          (blocks-Nodup a i p.aligned p.word small) in
      rw (p.given, ==_ne a null p.some_page, empty, all) refl

  pub list_self : grown.free_list i ≡ blocks a i
  list_self = rw (==_refl i) refl

  list_other : (j : ℕ) → j ≢ i → grown.free_list j ≡ h.free_list j
  list_other j ne = rw (==_ne j i ne) refl

  head_self : grown.arenas a ≡ some (small_arena i)
  head_self = rw (==_refl a) refl

  head_other : (b : ℕ) → b ≢ a → grown.arenas b ≡ h.arenas b
  head_other b ne = rw (==_ne b a ne) refl

  new_block : (c : ℕ) → elem c (blocks a i) ≡ true → block2arena c ≡ a
  new_block c within = block2arena-elem a i p.aligned p.word small c within

  not_new : (c : ℕ) → block2arena c ≢ a → elem c (blocks a i) ≡ false
  not_new c ne = elim (Bool-cases (elem c (blocks a i))) [
    | inl within ↦ absurd (ne (new_block c within))
    | inr e ↦ e
  ]

  elem_other : (c j : ℕ) → block2arena c ≢ a → elem c (grown.free_list j) ≡ elem c (h.free_list j)
  elem_other c j ne = elim (ℕ_discrete j i) [
    | yes same ↦
        subst (λ k. elem c (grown.free_list k) ≡ elem c (h.free_list k)) (sym same)
          (ap (elem c) list_self ∙ not_new c ne ∙ sym (ap (elem c) empty))
    | no apart ↦ ap (elem c) (list_other j apart)
  ]

  -- An arena that was there lies at another page.
  old_page : (b : ℕ) (head : ArenaHead) → h.arenas b ≡ some head → b ≢ a
  old_page b head e same = let both : some head ≡ none = sym e ∙ ap h.arenas same ∙ p.unused in cc

  in_arena_new : (c : ℕ) → elem c (blocks a i) ≡ true → InArena grown i c
  in_arena_new c within =
      let at = new_block c within in
      (
        small_arena i,
        ap grown.arenas at ∙ head_self,
        refl,
        subst (λ (x : ℕ). elem c (blocks x i) ≡ true) (sym at) within,
      )

  in_arena_old : (j c : ℕ) → InArena h j c → InArena grown j c
  in_arena_old j c (head, e, d, within) =
      (head, head_other (block2arena c) (old_page (block2arena c) head e) ∙ e, d, within)

  IsArena-new : IsArena grown a (small_arena i) i
  IsArena-new = record {
    small = small;
    aligned = p.aligned;
    word = p.word;
    counted = sym (
        count_where-all (λ c. elem c (grown.free_list i)) (blocks a i)
          (λ c within. ap (elem c) list_self ∙ within)
        ∙ length-blocks a i);
  }

  IsArena-old : (b j : ℕ) (head : ArenaHead) → b ≢ a → IsArena h b head j → IsArena grown b head j
  IsArena-old b j head ne old = record {
    small = old.small;
    aligned = old.aligned;
    word = old.word;
    counted =
        old.counted
        ∙ count_where-ext (λ c. elem c (h.free_list j)) (λ c. elem c (grown.free_list j))
            (blocks b j)
            (λ c within. sym (
              elem_other c j (λ e.
                ne (sym (block2arena-elem b j old.aligned old.word old.small c within) ∙ e))));
  }

  IsArena-page :
      (j : ℕ) (now : ArenaHead)
      → grown.arenas a ≡ some now
      → now.desc ≡ some j
      → IsArena grown a now j
  IsArena-page j now e d =
      let both : some (small_arena i) ≡ some now = sym head_self ∙ e in
      let one : small_arena i ≡ now = cc in
      let which : some i ≡ some j = ap (λ (x : ArenaHead). x.desc) one ∙ d in
      let which' : i ≡ j = cc in
      subst (λ k. IsArena grown a now k) which' (subst (λ x. IsArena grown a x i) one IsArena-new)

  pub grown-IsHeap : IsHeap grown
  grown-IsHeap = record {
    distinct = λ j. elim (ℕ_discrete j i) [
      | yes same ↦
          subst Nodup (sym (ap grown.free_list same ∙ list_self))
            (blocks-Nodup a i p.aligned p.word small)
      | no apart ↦ subst Nodup (sym (list_other j apart)) (v.distinct j)
    ];
    in_arena = λ j c within. elim (ℕ_discrete j i) [
      | yes same ↦
          subst (λ k. InArena grown k c) (sym same)
            (in_arena_new c (ap (elem c) (sym (ap grown.free_list same ∙ list_self)) ∙ within))
      | no apart ↦
          in_arena_old j c (v.in_arena j c (ap (elem c) (sym (list_other j apart)) ∙ within))
    ];
    heads = λ b j now e d. elim (ℕ_discrete b a) [
      | yes same ↦
          subst (λ x. IsArena grown x now j) (sym same)
            (IsArena-page j now (ap grown.arenas (sym same) ∙ e) d)
      | no apart ↦ IsArena-old b j now apart (v.heads b j now (sym (head_other b apart) ∙ e) d)
    ];
  }

  out_in_old : (c : ℕ) (x : Option ArenaHead) → block2arena c ≢ a → out_in grown c x ≡ out_in h c x
  out_in_old c none ne = refl
  out_in_old c (some x) ne = out_of_old x.desc
    where
      out_of_old : (d : Option ℕ) → out_of grown c d ≡ out_of h c d
      out_of_old none = refl
      out_of_old (some j) =
          ap (λ (y : Bool). elem c (blocks (block2arena c) j) && not y) (elem_other c j ne)

  and_not : (y : Bool) → (y && not y) ≡ false
  and_not true = refl
  and_not false = refl

  -- No block is out that was not out before, and none comes back.
  pub grown-is_out : (c : ℕ) → is_out grown c ≡ is_out h c
  unfolding is_out
  grown-is_out c = elim (ℕ_discrete (block2arena c) a) [
    | yes here ↦
        ap (out_in grown c) (ap grown.arenas here ∙ head_self)
        ∙ ap₂ (λ (x : ℕ) (l : List ℕ). elem c (blocks x i) && not (elem c l)) here list_self
        ∙ and_not (elem c (blocks a i))
        ∙ sym (ap (out_in h c) (ap h.arenas here ∙ p.unused))
    | no apart ↦
        ap (out_in grown c) (head_other (block2arena c) apart)
        ∙ out_in_old c (h.arenas (block2arena c)) apart
  ]
