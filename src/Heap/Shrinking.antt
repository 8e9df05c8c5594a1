-- ===== src/Heap/Shrinking.antt =====
-- An arena whose blocks are all free gives its page back.
use mcy_os.Prelude.{
  ℕ, zero, suc, ◌+◌, ◌≡◌, refl, sym, ap, subst, ◌∙◌, ◌≢◌, inl, inr, Bool, true, false, not, ◌&&◌,
  Option, none, some, List, arith, ℕ_discrete, ==_refl, ==_ne, Bool-cases, ok,
}
use mcy_os.Memory.{Memory}
use mcy_os.Memory.Frames.{mfree_page}
use mcy_os.Memory.Arena.{desc_at, arena2block, block2arena}
use mcy_os.Heap.{
  ArenaHead, HeapState, with_free_list, with_arena, elem, remove, pool_of, take_blocks, free_arena,
}
use mcy_os.Heap.Counts.{Nodup, Nodup-remove, elem-remove, count_where-ext, count_where-full}
use mcy_os.Heap.Blocks.{blocks_from, blocks, length-blocks, block2arena-elem, blocks-Nodup}
use mcy_os.Heap.Invariant.{IsArena, IsHeap, is_out, out_in, out_of}

and_true : (x : Bool) → (x && not false) ≡ x
and_true true = refl
and_true false = refl

-- The blocks are taken out of the list, which has them all.
take_blocks_lem :
    (left a i idx : ℕ) (xs : List ℕ)
    → Nodup xs
    → Nodup (blocks_from left a i idx)
    → ((c : ℕ) → elem c (blocks_from left a i idx) ≡ true → elem c xs ≡ true)
    → (ys : List ℕ) × (take_blocks left a i idx xs ≡ ok ys)
      × Nodup ys
      × ((c : ℕ) → elem c ys ≡ (elem c xs && not (elem c (blocks_from left a i idx))))
unfolding take_blocks blocks_from
take_blocks_lem zero a i idx xs u w has = (xs, refl, u, λ c. ground arith)
take_blocks_lem (suc left) a i idx xs u (new, w) has =
    let b = arena2block a (desc_at i) idx in
    let more = blocks_from left a i (idx + 1) in
    let within : elem b xs ≡ true = has b (ground arith) in
    let kept : (c : ℕ) → elem c more ≡ true → elem c (remove b xs) ≡ true = λ c h.
      elim (ℕ_discrete b c) [
        | yes same ↦
            let not_new : elem c more ≡ false = ap (λ (z : ℕ). elem z more) (sym same) ∙ new in cc
        | no apart ↦ ground (arith, elem-remove b c xs u, has c (ground (arith, h)), apart)
      ] in
    let (ys, e, u', left_over) =
      take_blocks_lem left a i (idx + 1) (remove b xs) (Nodup-remove b xs u) w kept in
    (ys, rw within e, u', λ c. ground (arith, left_over c, elem-remove b c xs u))

module _ (h : HeapState) (v : IsHeap h) (i a : ℕ) (head : ArenaHead)
    (found : h.arenas a ≡ some head) (of_desc : head.desc ≡ some i)
    (full : head.cnt ≡ (desc_at i).block_per_arena) (m : Memory)
    (given_back : mfree_page (pool_of h) a 1 h.memory ≡ ok m) where
  arena : IsArena h a head i
  arena = v.heads a i head found of_desc

  -- Every block of the arena is free.
  all_free : (c : ℕ) → elem c (blocks a i) ≡ true → elem c (h.free_list i) ≡ true
  all_free =
      count_where-full (λ c. elem c (h.free_list i)) (blocks a i)
        (sym arena.counted ∙ full ∙ sym (length-blocks a i))

  pub record Shrunk : Type 0 where
    pub left_over : List ℕ
    pub result : take_blocks (desc_at i).block_per_arena a i 0 (h.free_list i) ≡ ok left_over
    pub distinct : Nodup left_over
    pub exactly : (c : ℕ) → elem c left_over ≡ (elem c (h.free_list i) && not (elem c (blocks a i)))

  pub shrink : Shrunk
  unfolding blocks
  shrink =
      let (ys, e, u, ex) =
        take_blocks_lem (desc_at i).block_per_arena a i 0 (h.free_list i) (v.distinct i)
          (blocks-Nodup a i arena.aligned arena.word arena.small) all_free in
      record { left_over = ys; result = e; distinct = u; exactly = ex }

  abbrev pub shrunk : HeapState
  shrunk = with_arena a none (record (with_free_list i (shrink.left_over) h) { memory = m })

  pub free_arena-ok : free_arena a 1 (with_free_list i (shrink.left_over) h) ≡ ok shrunk
  unfolding free_arena
  free_arena-ok = rw given_back refl

  list_self : shrunk.free_list i ≡ shrink.left_over
  list_self = rw (==_refl i) refl

  list_other : (j : ℕ) → j ≢ i → shrunk.free_list j ≡ h.free_list j
  list_other j ne = rw (==_ne j i ne) refl

  head_self : shrunk.arenas a ≡ none
  head_self = rw (==_refl a) refl

  head_other : (b : ℕ) → b ≢ a → shrunk.arenas b ≡ h.arenas b
  head_other b ne = rw (==_ne b a ne) refl

  not_here : (c : ℕ) → block2arena c ≢ a → elem c (blocks a i) ≡ false
  not_here c ne = elim (Bool-cases (elem c (blocks a i))) [
    | inl within ↦ absurd (ne (block2arena-elem a i arena.aligned arena.word arena.small c within))
    | inr e ↦ e
  ]

  elem_other : (c j : ℕ) → block2arena c ≢ a → elem c (shrunk.free_list j) ≡ elem c (h.free_list j)
  elem_other c j ne = elim (ℕ_discrete j i) [
    | yes same ↦
        subst (λ k. elem c (shrunk.free_list k) ≡ elem c (h.free_list k)) (sym same)
          (ap (elem c) list_self
            ∙ shrink.exactly c
            ∙ rw (not_here c ne) (and_true (elem c (h.free_list i))))
    | no apart ↦ ap (elem c) (list_other j apart)
  ]

  -- A block that is still in a free list belongs to another arena.
  elsewhere :
      (j c : ℕ)
      → elem c (shrunk.free_list j) ≡ true
      → (elem c (h.free_list j) ≡ true) × (block2arena c ≢ a)
  elsewhere j c within = elim (ℕ_discrete j i) [
    | yes same ↦
        let is_left : (elem c (h.free_list i) && not (elem c (blocks a i))) ≡ true =
          sym (shrink.exactly c)
          ∙ ap (elem c) (sym (ap shrunk.free_list same ∙ list_self))
          ∙ within in
        let was : elem c (h.free_list i) ≡ true = ground (arith, is_left) in
        let (_, _, _, block) = v.in_arena i c was in
        (
          ap (λ (k : ℕ). elem c (h.free_list k)) same ∙ was,
          λ at.
              let inside : elem c (blocks a i) ≡ true =
                ap (λ (x : ℕ). elem c (blocks x i)) (sym at) ∙ block in
              ground (arith, is_left, inside),
        )
    | no apart ↦
        let was : elem c (h.free_list j) ≡ true = ap (elem c) (sym (list_other j apart)) ∙ within in
        let (other, e, d, _) = v.in_arena j c was in
        (
          was,
          λ at.
              let both : some other ≡ some head = sym e ∙ ap h.arenas at ∙ found in
              let one : other ≡ head = cc in
              let which : some j ≡ some i = sym d ∙ ap (λ (x : ArenaHead). x.desc) one ∙ of_desc in
              apart cc,
        )
  ]

  IsArena-other : (b j : ℕ) (now : ArenaHead) → b ≢ a → IsArena h b now j → IsArena shrunk b now j
  IsArena-other b j now ne old = record {
    small = old.small;
    aligned = old.aligned;
    word = old.word;
    counted =
        old.counted
        ∙ count_where-ext (λ c. elem c (h.free_list j)) (λ c. elem c (shrunk.free_list j))
            (blocks b j)
            (λ c within. sym (
              elem_other c j (λ e.
                ne (sym (block2arena-elem b j old.aligned old.word old.small c within) ∙ e))));
  }

  pub shrunk-IsHeap : IsHeap shrunk
  shrunk-IsHeap = record {
    distinct = λ j. elim (ℕ_discrete j i) [
      | yes same ↦ subst Nodup (sym (ap shrunk.free_list same ∙ list_self)) (shrink.distinct)
      | no apart ↦ subst Nodup (sym (list_other j apart)) (v.distinct j)
    ];
    in_arena = λ j c within.
        let (was, ne) = elsewhere j c within in
        let (now, e, d, block) = v.in_arena j c was in
        (now, head_other (block2arena c) ne ∙ e, d, block);
    heads = λ b j now e d. elim (ℕ_discrete b a) [
      | yes same ↦
          let both : some now ≡ none = sym e ∙ ap shrunk.arenas same ∙ head_self in absurd cc
      | no apart ↦ IsArena-other b j now apart (v.heads b j now (sym (head_other b apart) ∙ e) d)
    ];
  }

  out_in_other :
      (c : ℕ) (x : Option ArenaHead) → block2arena c ≢ a → out_in shrunk c x ≡ out_in h c x
  out_in_other c none ne = refl
  out_in_other c (some x) ne = out_of_other x.desc
    where
      out_of_other : (d : Option ℕ) → out_of shrunk c d ≡ out_of h c d
      out_of_other none = refl
      out_of_other (some j) =
          ap (λ (y : Bool). elem c (blocks (block2arena c) j) && not y) (elem_other c j ne)

  pub shrunk-is_out : (c : ℕ) → is_out shrunk c ≡ is_out h c
  unfolding is_out
  shrunk-is_out c = elim (ℕ_discrete (block2arena c) a) [
    | yes here ↦
        let free : (elem c (blocks a i) && not (elem c (h.free_list i))) ≡ false =
          elim (Bool-cases (elem c (blocks a i))) [
            | inl within ↦ ground (arith, within, all_free c within)
            | inr without ↦ ground (arith, without)
          ] in
        ap (out_in shrunk c) (ap shrunk.arenas here ∙ head_self)
        ∙ sym (
            ap (out_in h c) (ap h.arenas here ∙ found)
            ∙ ap (out_of h c) of_desc
            ∙ ap (λ (x : ℕ). elem c (blocks x i) && not (elem c (h.free_list i))) here
            ∙ free)
    | no apart ↦
        ap (out_in shrunk c) (head_other (block2arena c) apart)
        ∙ out_in_other c (h.arenas (block2arena c)) apart
  ]
