-- ===== src/Heap/Moving.antt =====
-- One block goes into a free list or out of it: the invariant, and which blocks are out.
use mcy_os.Prelude.{
  ℕ, ◌≡◌, refl, sym, ap, subst, ◌∙◌, ◌≢◌, Bool, true, not, ◌&&◌, Option, none, some, List,
  ℕ_discrete, ==_refl, ==_ne,
}
use mcy_os.Memory.Arena.{block2arena}
use mcy_os.Heap.{ArenaHead, HeapState, with_free_list, with_arena, elem}
use mcy_os.Heap.Counts.{Nodup, count_where, count_where-ext}
use mcy_os.Heap.Blocks.{blocks, block2arena-elem}
use mcy_os.Heap.Invariant.{IsArena, InArena, IsHeap, is_out, out_in, out_of}

-- `l` is the new list of the descriptor `i`, and `n` the new count of the arena of `b`.
module _ (h : HeapState) (v : IsHeap h) (i b : ℕ) (l : List ℕ) (n : ℕ) (place : InArena h i b)
    (distinct : Nodup l) (change : (c : ℕ) → b ≢ c → elem c l ≡ elem c (h.free_list i))
    (counted : n ≡ count_where (λ c. elem c l) (blocks (block2arena b) i)) where
  abbrev page : ℕ
  page = block2arena b

  abbrev head : ArenaHead
  head = place.0

  abbrev pub moved : HeapState
  moved = with_arena (block2arena b) (some (record (place.0) { cnt = n })) (with_free_list i l h)

  list_self : moved.free_list i ≡ l
  list_self = rw (==_refl i) refl

  list_other : (j : ℕ) → j ≢ i → moved.free_list j ≡ h.free_list j
  list_other j ne = rw (==_ne j i ne) refl

  pub head_self : moved.arenas page ≡ some (record head { cnt = n })
  head_self = rw (==_refl page) refl

  head_other : (a : ℕ) → a ≢ page → moved.arenas a ≡ h.arenas a
  head_other a ne = rw (==_ne a page ne) refl

  -- What is not `b` is in the lists as before.
  elem_other : (c j : ℕ) → b ≢ c → elem c (moved.free_list j) ≡ elem c (h.free_list j)
  elem_other c j ne = elim (ℕ_discrete j i) [
    | yes same ↦
        subst (λ k. elem c (moved.free_list k) ≡ elem c (h.free_list k)) (sym same)
          (ap (elem c) list_self ∙ change c ne)
    | no apart ↦ ap (elem c) (list_other j apart)
  ]

  -- The head of an arena keeps its descriptor.
  desc_kept :
      (a j : ℕ) (was : ArenaHead)
      → h.arenas a ≡ some was
      → was.desc ≡ some j
      → (now : ArenaHead) × (moved.arenas a ≡ some now) × (now.desc ≡ some j)
  desc_kept a j was e d = elim (ℕ_discrete a page) [
    | yes same ↦
        let both : some was ≡ some head = sym e ∙ ap h.arenas same ∙ place.1 in
        let one : was ≡ head = cc in
        (
          record head { cnt = n },
          ap moved.arenas same ∙ head_self,
          ap (λ (x : ArenaHead). x.desc) (sym one) ∙ d,
        )
    | no apart ↦ (was, head_other a apart ∙ e, d)
  ]

  in_arena_kept : (j c : ℕ) → InArena h j c → InArena moved j c
  in_arena_kept j c (was, e, d, within) =
      let (now, e', d') = desc_kept (block2arena c) j was e d in (now, e', d', within)

  IsArena-self : IsArena moved page (record head { cnt = n }) i
  IsArena-self =
      let was = v.heads page i head (place.1) (place.2) in
      record {
        small = was.small;
        aligned = was.aligned;
        word = was.word;
        counted =
            counted
            ∙ ap (λ (x : List ℕ). count_where (λ c. elem c x) (blocks page i)) (sym list_self);
      }

  IsArena-other : (a j : ℕ) (was : ArenaHead) → a ≢ page → IsArena h a was j → IsArena moved a was j
  IsArena-other a j was ne v' = record {
    small = v'.small;
    aligned = v'.aligned;
    word = v'.word;
    counted =
        v'.counted
        ∙ count_where-ext (λ c. elem c (h.free_list j)) (λ c. elem c (moved.free_list j))
            (blocks a j)
            (λ c within. sym (
              elem_other c j (λ e. ne (
                sym (block2arena-elem a j v'.aligned v'.word v'.small c within)
                ∙ ap block2arena (sym e)))));
  }

  in_arena_self : (j : ℕ) → elem b (moved.free_list j) ≡ true → InArena moved j b
  in_arena_self j within = elim (ℕ_discrete j i) [
    | yes same ↦ subst (λ k. InArena moved k b) (sym same) (in_arena_kept i b place)
    | no apart ↦
        in_arena_kept j b (v.in_arena j b (ap (elem b) (sym (list_other j apart)) ∙ within))
  ]

  IsArena-page :
      (j : ℕ) (now : ArenaHead)
      → moved.arenas page ≡ some now
      → now.desc ≡ some j
      → IsArena moved page now j
  IsArena-page j now e d =
      let both : some (record head { cnt = n }) ≡ some now = sym head_self ∙ e in
      let one : record head { cnt = n } ≡ now = cc in
      let which : some i ≡ some j = sym (place.2) ∙ ap (λ (x : ArenaHead). x.desc) one ∙ d in
      let which' : i ≡ j = cc in
      subst (λ k. IsArena moved page now k) which'
        (subst (λ x. IsArena moved page x i) one IsArena-self)

  pub moved-IsHeap : IsHeap moved
  moved-IsHeap = record {
    distinct = λ j. elim (ℕ_discrete j i) [
      | yes same ↦ subst Nodup (sym (ap moved.free_list same ∙ list_self)) distinct
      | no apart ↦ subst Nodup (sym (list_other j apart)) (v.distinct j)
    ];
    in_arena = λ j c within. elim (ℕ_discrete b c) [
      | yes same ↦
          subst (InArena moved j) same
            (in_arena_self j (ap (λ (z : ℕ). elem z (moved.free_list j)) same ∙ within))
      | no apart ↦ in_arena_kept j c (v.in_arena j c (sym (elem_other c j apart) ∙ within))
    ];
    heads = λ a j now e d. elim (ℕ_discrete a page) [
      | yes same ↦
          subst (λ x. IsArena moved x now j) (sym same)
            (IsArena-page j now (ap moved.arenas (sym same) ∙ e) d)
      | no apart ↦ IsArena-other a j now apart (v.heads a j now (sym (head_other a apart) ∙ e) d)
    ];
  }

  out_of_other : (c : ℕ) (d : Option ℕ) → b ≢ c → out_of moved c d ≡ out_of h c d
  out_of_other c none ne = refl
  out_of_other c (some j) ne =
      ap (λ (x : Bool). elem c (blocks (block2arena c) j) && not x) (elem_other c j ne)

  out_in_other : (c : ℕ) (x : Option ArenaHead) → b ≢ c → out_in moved c x ≡ out_in h c x
  out_in_other c none ne = refl
  out_in_other c (some x) ne = out_of_other c x.desc ne

  pub moved-is_out_self : is_out moved b ≡ not (elem b l)
  unfolding is_out
  moved-is_out_self =
      ap (out_in moved b) head_self
      ∙ ap (out_of moved b) (place.2)
      ∙ ap (λ (x : List ℕ). elem b (blocks page i) && not (elem b x)) list_self
      ∙ ap (λ (x : Bool). x && not (elem b l)) (place.3)

  -- Every other block is out as before.
  pub moved-is_out_other : (c : ℕ) → b ≢ c → is_out moved c ≡ is_out h c
  unfolding is_out
  moved-is_out_other c ne =
      let same : (d : Option ℕ) → out_of moved c d ≡ out_of h c d = λ d. out_of_other c d ne in
      elim (ℕ_discrete (block2arena c) page) [
        | yes here ↦
            ap (out_in moved c) (ap moved.arenas here ∙ head_self)
            ∙ same head.desc
            ∙ ap (out_in h c) (sym (ap h.arenas here ∙ place.1))
        | no apart ↦
            ap (out_in moved c) (head_other (block2arena c) apart)
            ∙ out_in_other c (h.arenas (block2arena c)) ne
      ]
