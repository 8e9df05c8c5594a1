-- ===== src/Ide/Writes.antt =====
-- The loop of `ide_write` of device/ide.c.
use mcy_os.Prelude.{
  ℕ, zero, suc, ◌+◌, ◌-◌, ◌*◌, ◌≤◌, ◌<◌, ◌≡◌, refl, ap, ap₂, ◌∙◌, inl, inr, true, ◌&&◌, List, arith,
  dec_lt, ltb, leb, if◌then◌else◌, lt→ltb, Bool-cases, add32, length, get_or, take, drop, ok,
}
use mcy_os.Prelude.{get_or-drop, length-drop, length-take, get_or-take}
use mathlib.Core.Path.{fun_ext}
use mcy_os.Inode.{Disk}
use mcy_os.Inode
use mcy_os.Ide.{
  IdeChannel, Drive, max_lba, dev_bits, select_disk, round_size, write_rounds, ide_write,
}
use mcy_os.Ide.Transfer.{MovesSectors, AnswersInTime, IsWired, write_round_lem, write_rounds_step}

-- The disk with the bytes of a buffer stored from an address on, beginning with the byte at `done`.
abbrev stored_from : ℕ → ℕ → List ℕ → Disk → Disk
stored_from start done buf d a =
    if leb (start + done) a && ltb a (start + length buf) then get_or buf (a - start) 0 else d a

-- A chunk and what lies behind it.
stored_chunk :
    (start done n : ℕ) (buf : List ℕ) (d : Disk) (a : ℕ)
    → done + n ≤ length buf
    → stored_from start (done + n) buf (stored_from (start + done) 0 (take n (drop done buf)) d) a
      ≡ stored_from start done buf d a
stored_chunk start done n buf d a fits =
    let left = length-drop done buf (omega (arith, fits)) in
    let sized : length (take n (drop done buf)) ≡ n =
      length-take n (drop done buf) (omega (arith, fits, left)) in
    elim (dec_lt a (start + done)) [
      | yes before ↦ ground (arith, before, sized)
      | no after ↦ elim (dec_lt a (start + done + n)) [
        | no behind ↦ ground (arith, behind, after, sized)
        | yes within ↦
            let place : done + (a - (start + done)) ≡ a - start = omega (arith, after) in
            let byte : get_or (take n (drop done buf)) (a - (start + done)) 0
                ≡ get_or buf (a - start) 0 =
              get_or-take n (a - (start + done)) (drop done buf) (omega (arith, within, after))
              ∙ get_or-drop done (a - (start + done)) buf
              ∙ ap (λ (k : ℕ). get_or buf k 0) place in
            ground (arith, within, after, sized, byte, fits)
      ]
    ]

-- The same for sectors, where the chunk is written by the sector.
stored_sectors :
    (lba done op : ℕ) (buf : List ℕ) (d : Disk) (a : ℕ)
    → (done + op) * 512 ≤ length buf
    → stored_from
        (lba * 512)
        ((done + op) * 512)
        buf
        (Inode.ide_write d (lba + done) (take (op * 512) (drop (done * 512) buf)))
        a
      ≡ stored_from (lba * 512) (done * 512) buf d a
stored_sectors lba done op buf d a fits =
    let end : (done + op) * 512 ≡ done * 512 + op * 512 = omega arith in
    let start : (lba + done) * 512 ≡ lba * 512 + done * 512 = omega arith in
    let start' : lba * 512 + done * 512 + 0 ≡ lba * 512 + done * 512 = omega arith in
    let chunk = take (op * 512) (drop (done * 512) buf) in
    let written : Inode.ide_write d (lba + done) chunk
        ≡ stored_from (lba * 512 + done * 512) 0 chunk d =
      fun_ext (λ (b : ℕ). rw (start, start') refl) in
    ap₂ (λ (e : ℕ) (x : Disk). stored_from (lba * 512) e buf x a) end written
    ∙ stored_chunk (lba * 512) (done * 512) (op * 512) buf d a (omega (arith, fits))

module _ (drive : Drive) (answers : AnswersInTime drive) (moves : MovesSectors drive)
    (dev_no : ℕ) where
  write_rounds_lem :
      (lba sec_cnt : ℕ) (buf : List ℕ) (fuel done : ℕ) (d : Disk) (ch : IdeChannel)
      → IsWired ch
      → lba + sec_cnt ≤ max_lba + 1
      → length buf ≡ sec_cnt * 512
      → done ≤ sec_cnt
      → sec_cnt - done ≤ fuel
      → (ch' : IdeChannel) × (d' : Disk) × (write_rounds fuel drive d dev_no lba buf sec_cnt done ch
          ≡ ok (ch', d'))
        × ((a : ℕ) → d' a ≡ stored_from (lba * 512) (done * 512) buf d a)
  unfolding write_rounds
  write_rounds_lem lba sec_cnt buf zero done d ch wired inside full sub enough =
      (ch, d, refl, λ a. ground (arith, full, sub, enough))
  write_rounds_lem lba sec_cnt buf (suc fuel) done d ch wired inside full sub enough =
      elim (Bool-cases (ltb done sec_cnt)) [
        | inr over ↦ (ch, d, rw over refl, λ a. ground (arith, full, over))
        | inl more ↦
            let op = round_size done sec_cnt in
            let small : op ≤ 256 = ground arith in
            let pos : 1 ≤ op = ground (arith, more) in
            let fits : op ≤ sec_cnt - done = ground (arith, inside) in
            let at : add32 lba done ≡ lba + done = ground (arith, inside, sub) in
            let next : add32 done op ≡ done + op = omega (arith, small, inside, sub) in
            let left = length-drop (done * 512) buf (omega (arith, full, sub)) in
            let (ch1, e1, wired') =
              write_round_lem drive answers moves dev_no d (lba + done) op (drop (done * 512) buf)
                ch wired (omega (arith, pos, fits)) pos small (omega (arith, left, full, fits)) in
            let (ch2, d2, e2, bytes) =
              write_rounds_lem lba sec_cnt buf fuel (done + op)
                (Inode.ide_write d (lba + done) (take (op * 512) (drop (done * 512) buf))) ch1
                wired' inside full (omega (arith, fits, sub)) (omega (arith, pos, fits, enough)) in
            (
              ch2,
              d2,
              write_rounds_step drive dev_no lba sec_cnt fuel done (lba + done) (done + op) ch ch1
                    more at next d _ buf e1
                  ∙ e2,
              λ a. bytes a ∙ stored_sectors lba done op buf d a (omega (arith, full, fits, sub)),
            )
      ]

  -- For a drive that moves all sectors of a command at once and answers in time, on one of the two
  -- channels, where no interrupt is left that nobody waited for, `ide_write` of a buffer of some whole sectors, up to
  -- the last one of 80 MB, does not stop the machine. The disk then holds the bytes of the buffer at
  -- these sectors, and elsewhere what it held before.
  pub ide_write_lem :
      (lba sec_cnt : ℕ) (buf : List ℕ) (d : Disk) (ch : IdeChannel)
      → IsWired ch
      → 0 < sec_cnt
      → lba + sec_cnt ≤ max_lba + 1
      → length buf ≡ sec_cnt * 512
      → (ch' : IdeChannel) × (ide_write drive d dev_no lba buf sec_cnt ch
          ≡ ok (ch', Inode.ide_write d lba buf))
  unfolding ide_write select_disk
  ide_write_lem lba sec_cnt buf d ch wired pos inside full =
      let begun = record ch { regs = record ch.regs { dev = dev_bits dev_no } } in
      let (ch', d', e, bytes) =
        write_rounds_lem lba sec_cnt buf sec_cnt 0 d begun wired inside full (omega arith)
          (omega arith) in
      let low : leb lba max_lba ≡ true = ground arith in
      let start : lba * 512 + 0 * 512 ≡ lba * 512 = omega arith in
      let same : d' ≡ Inode.ide_write d lba buf = fun_ext (λ (a : ℕ). bytes a ∙ rw start refl) in
      (ch', rw (low, lt→ltb 0 sec_cnt pos) e ∙ ap (λ (x : Disk). ok (ch', x)) same)
