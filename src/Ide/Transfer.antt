-- ===== src/Ide/Transfer.antt =====
-- Reading and writing through the controller of device/ide.c, against the disk as its bytes.
use Prim.Native.Nat.{bit_or}
use mcy_os.Prelude.{
  false, ℕ, zero, suc, ◌+◌, ◌-◌, ◌*◌, ◌/◌, ◌%◌, ◌^◌, ◌≤◌, ◌<◌, ◌≡◌, refl, sym, ap, ap₂, subst, ◌∙◌,
  inl, inr, true, false, ◌||◌, List, ◌∷◌, ◌++◌, arith, ltb, leb, ◌==◌, if◌then◌else◌, lt→ltb,
  Bool-cases, ==_refl, add32, length, take, drop, ok,
}
use mcy_os.Prelude.{false, length-take}
use mcy_os.Inode.{Disk, read_bytes}
use mcy_os.Inode
use mcy_os.Ide.{
  Regs, IdeChannel, Drive, max_lba, dev_bits, select_disk, select_sector, cmd_out, size_in_byte,
  read_from_sector, write2sector, is_busy, has_data, busy_from, busy_wait, intr_hd_handler,
  wait_done, disk_done_up, round_size, read_round, read_rounds, ide_read, write_round, write_rounds,
}

-- The sectors that the ports name to an ATA drive: a count of 0 is 256, and the address has 28 bits.
abbrev pub count_of : Regs → ℕ
count_of r = if r.sect_cnt == 0 then 256 else r.sect_cnt

abbrev pub lba_of : Regs → ℕ
lba_of r = r.lba_l + r.lba_m * 2 ^ 8 + r.lba_h * 2 ^ 16 + r.dev % 16 * 2 ^ 24

-- The drive gives and takes the bytes of all sectors of a command when it has data.
pub record MovesSectors (drive : Drive) : Type 0 where
  pub reads :
      (d : Disk) (r : Regs)
      → drive.data_in d r (count_of r * 512) ≡ Inode.ide_read d (lba_of r) (count_of r)
  pub writes :
      (d : Disk) (r : Regs) (bytes : List ℕ)
      → length bytes ≡ count_of r * 512
      → drive.data_out d r bytes ≡ Inode.ide_write d (lba_of r) bytes

-- From any time on the drive stops being busy before the 29,999th look, and then has data.
pub record AnswersInTime (drive : Drive) : Type 0 where
  pub pause : ℕ → ℕ
  pub short : (n : ℕ) → pause n < 29999
  pub before : (n j : ℕ) → j < pause n → is_busy (drive.status (n + j)) ≡ true
  pub after : (n : ℕ) → is_busy (drive.status (n + pause n)) ≡ false
  pub with_data : (n : ℕ) → has_data (drive.status (n + pause n + 1)) ≡ true

-- The channel after some rounds in which the drive was busy.
abbrev pub waited_for : ℕ → IdeChannel → IdeChannel
waited_for k ch = record ch { polls = ch.polls + k; slept = ch.slept + k * 10 }

-- The channel after `k` such rounds and the last one.
abbrev pub answered_after : ℕ → IdeChannel → IdeChannel
answered_after k ch = record ch { polls = ch.polls + k + 2; slept = ch.slept + k * 10 }

busy_from_lem :
    (drive : Drive) (left k : ℕ) (ch : IdeChannel)
    → k < left
    → ((j : ℕ) → j < k → is_busy (drive.status (ch.polls + j)) ≡ true)
    → is_busy (drive.status (ch.polls + k)) ≡ false
    → has_data (drive.status (ch.polls + k + 1)) ≡ true
    → busy_from left drive ch ≡ (answered_after k ch, true)
unfolding busy_from
busy_from_lem drive zero k ch below busy idle ready = absurd (omega arith)
busy_from_lem drive (suc left) zero ch below busy idle ready =
    let n = ch.polls in
    let idle' : is_busy (drive.status n) ≡ false =
      subst (λ a. is_busy (drive.status a) ≡ false) (omega arith) idle in
    let ready' : has_data (drive.status (n + 1)) ≡ true =
      subst (λ a. has_data (drive.status (a + 1)) ≡ true) (omega arith) ready in
    rw (idle', ready')
      (ap₂ (λ (p t : ℕ). (record ch { polls = p; slept = t }, true)) (omega arith) (omega arith))
busy_from_lem drive (suc left) (suc k) ch below busy idle ready =
    let n = ch.polls in
    let at : (j : ℕ) → n + suc j ≡ n + 1 + j = λ j. omega arith in
    let first : is_busy (drive.status n) ≡ true =
      subst (λ a. is_busy (drive.status a) ≡ true) (omega arith) (busy 0 (omega arith)) in
    rw first (
      busy_from_lem drive left k (waited_for 1 ch) (omega arith)
        (λ j h. subst (λ a. is_busy (drive.status a) ≡ true) (at j) (busy (suc j) (omega arith)))
        (subst (λ a. is_busy (drive.status a) ≡ false) (at k) idle)
        (subst (λ a. has_data (drive.status (a + 1)) ≡ true) (at k) ready)
      ∙ ap₂ (λ (p t : ℕ). (record ch { polls = p; slept = t }, true)) (omega arith) (omega arith))

read_bytes-append :
    (d : Disk) (a m n : ℕ) → read_bytes d a (m + n) ≡ read_bytes d a m ++ read_bytes d (a + m) n
read_bytes-append d a zero n = ap₂ (read_bytes d) (omega arith) (omega arith)
read_bytes-append d a (suc m) n =
    let count : suc m + n ≡ suc (m + n) = omega arith in
    let place : a + 1 + m ≡ a + suc m = omega arith in
    rw count (
      ap (◌∷◌ (d a)) (
        read_bytes-append d (a + 1) m n
        ∙ ap (λ (b : ℕ). read_bytes d (a + 1) m ++ read_bytes d b n) place))

-- The channel after `select_sector`.
unfoldable chosen : ℕ → ℕ → ℕ → IdeChannel → IdeChannel
chosen dev_no lba sec_cnt channel = record channel {
  regs = record {
    sect_cnt = sec_cnt % 2 ^ 8;
    lba_l = lba % 2 ^ 8;
    lba_m = lba / 2 ^ 8 % 2 ^ 8;
    lba_h = lba / 2 ^ 16 % 2 ^ 8;
    dev = bit_or (dev_bits dev_no) (lba / 2 ^ 24) % 2 ^ 8;
  };
}

select_sector-ok :
    (dev_no lba op : ℕ) (ch : IdeChannel)
    → lba ≤ max_lba
    → select_sector dev_no lba op ch ≡ ok (chosen dev_no lba op ch)
unfolding select_sector chosen
select_sector-ok dev_no lba op ch h = ground arith

count_of-chosen :
    (dev_no lba op : ℕ) (ch : IdeChannel)
    → 1 ≤ op
    → op ≤ 256
    → count_of (chosen dev_no lba op ch).regs ≡ op
unfolding chosen
count_of-chosen dev_no lba op ch pos small = ground arith

size_in_byte_lem : (op : ℕ) → 1 ≤ op → op ≤ 256 → size_in_byte op / 2 * 2 ≡ op * 512
unfolding size_in_byte
size_in_byte_lem op pos small = ground arith

dev_bits_low : (dev_no : ℕ) → bit_or (dev_bits dev_no) 0 % 2 ^ 8 % 16 ≡ 0
dev_bits_low dev_no = elim (Bool-cases (dev_no == 1)) [ inl e ↦ rw e refl | inr e ↦ rw e refl ]

lba_of-chosen :
    (dev_no lba op : ℕ) (ch : IdeChannel)
    → lba ≤ max_lba
    → lba_of (chosen dev_no lba op ch).regs ≡ lba
unfolding chosen
lba_of-chosen dev_no lba op ch h =
    let high : lba / 2 ^ 24 ≡ 0 = omega arith in rw high (omega (arith, dev_bits_low dev_no, h))

-- The channel has its interrupt, and no interrupt has come that nobody waited for.
abbrev pub IsWired : IdeChannel → Type 0
IsWired ch = ((ch.irq_no == 0x2e || ch.irq_no == 0x2f) ≡ true) × (ch.disk_done ≡ 0)

wait_done_lem :
    (ch : IdeChannel)
    → IsWired ch
    → ch.expecting_intr ≡ true
    → (ch' : IdeChannel) × (wait_done ch ≡ ok ch') × IsWired ch' × (ch'.regs ≡ ch.regs)
unfolding wait_done intr_hd_handler disk_done_up
wait_done_lem ch (wired, none_yet) waits = (
  record ch { expecting_intr = false; disk_done = 0; polls = ch.polls + 1 },
  rw (none_yet, ==_refl ch.irq_no, wired, waits) refl,
  (wired, refl),
  refl,
)

-- One round of either loop, from what its parts give.
module _ (drive : Drive) (dev_no lba sec_cnt fuel done a next : ℕ) (ch ch1 : IdeChannel) where
  module _ (more : ltb done sec_cnt ≡ true) (at : add32 lba done ≡ a)
      (on : add32 done (round_size done sec_cnt) ≡ next) where
    read_rounds_step :
        (d : Disk) (ch2 : IdeChannel) (bytes later : List ℕ)
        → read_round drive d dev_no a (round_size done sec_cnt) ch ≡ ok (ch1, bytes)
        → read_rounds fuel drive d dev_no lba sec_cnt next ch1 ≡ ok (ch2, later)
        → read_rounds (suc fuel) drive d dev_no lba sec_cnt done ch ≡ ok (ch2, bytes ++ later)
    unfolding read_rounds
    read_rounds_step d ch2 bytes later e1 e2 = rw (more, at, e1, on, e2) refl

    pub write_rounds_step :
        (d d1 : Disk) (buf : List ℕ)
        → write_round drive d dev_no a (drop (done * 512) buf) (round_size done sec_cnt) ch
          ≡ ok (ch1, d1)
        → write_rounds (suc fuel) drive d dev_no lba buf sec_cnt done ch
          ≡ write_rounds fuel drive d1 dev_no lba buf sec_cnt next ch1
    unfolding write_rounds
    write_rounds_step d d1 buf e1 = rw (more, at, e1, on) refl

module _ (drive : Drive) (answers : AnswersInTime drive) where
  busy_wait_lem :
      (ch : IdeChannel) → busy_wait drive ch ≡ (answered_after (answers.pause ch.polls) ch, true)
  unfolding busy_wait
  busy_wait_lem ch =
      let n = ch.polls in
      busy_from_lem drive 29999 (answers.pause n) ch (answers.short n) (answers.before n)
        (answers.after n) (answers.with_data n)

  module _ (moves : MovesSectors drive) (dev_no : ℕ) where
    read_round_lem :
        (d : Disk) (lba op : ℕ) (ch : IdeChannel)
        → IsWired ch
        → lba ≤ max_lba
        → 1 ≤ op
        → op ≤ 256
        → (ch' : IdeChannel) × (read_round drive d dev_no lba op ch
            ≡ ok (ch', Inode.ide_read d lba op))
          × IsWired ch'
    unfolding read_round read_from_sector cmd_out chosen
    read_round_lem d lba op ch wired low pos small =
        let sel = chosen dev_no lba op ch in
        let sent = record sel { expecting_intr = true } in
        let (woken, e, wired', regs) = wait_done_lem sent wired refl in
        let last = answered_after (answers.pause woken.polls) woken in
        let count : count_of woken.regs ≡ op =
          ap count_of regs ∙ count_of-chosen dev_no lba op ch pos small in
        let place : lba_of woken.regs ≡ lba = ap lba_of regs ∙ lba_of-chosen dev_no lba op ch low in
        let got : drive.data_in d woken.regs (size_in_byte op / 2 * 2) ≡ Inode.ide_read d lba op =
          ap (drive.data_in d woken.regs)
            (size_in_byte_lem op pos small ∙ ap (λ (n : ℕ). n * 512) (sym count))
          ∙ moves.reads d woken.regs
          ∙ ap₂ (Inode.ide_read d) place count in
        (last, rw (select_sector-ok dev_no lba op ch low, e, busy_wait_lem woken, got) refl, wired')

    read_rounds_lem :
        (d : Disk) (lba sec_cnt fuel done : ℕ) (ch : IdeChannel)
        → IsWired ch
        → lba + sec_cnt ≤ max_lba + 1
        → done ≤ sec_cnt
        → sec_cnt - done ≤ fuel
        → (ch' : IdeChannel) × (read_rounds fuel drive d dev_no lba sec_cnt done ch
            ≡ ok (ch', read_bytes d ((lba + done) * 512) ((sec_cnt - done) * 512)))
    unfolding read_rounds
    read_rounds_lem d lba sec_cnt zero done ch wired inside sub enough =
        let none_left : (sec_cnt - done) * 512 ≡ 0 = omega arith in (ch, rw none_left refl)
    read_rounds_lem d lba sec_cnt (suc fuel) done ch wired inside sub enough =
        elim (Bool-cases (ltb done sec_cnt)) [
          | inr over ↦
              let none_left : (sec_cnt - done) * 512 ≡ 0 = ground (arith, over) in
              (ch, rw (over, none_left) refl)
          | inl more ↦
              let op = round_size done sec_cnt in
              let small : op ≤ 256 = ground arith in
              let pos : 1 ≤ op = ground (arith, more) in
              let fits : op ≤ sec_cnt - done = ground (arith, inside) in
              let at : add32 lba done ≡ lba + done = ground (arith, inside, sub) in
              let next : add32 done op ≡ done + op = omega (arith, small, inside, sub) in
              let (ch1, e1, wired') =
                read_round_lem d (lba + done) op ch wired (omega (arith, pos, fits)) pos small in
              let (ch2, e2) =
                read_rounds_lem d lba sec_cnt fuel (done + op) ch1 wired' inside
                  (omega (arith, fits, sub)) (omega (arith, pos, fits, enough)) in
              let joined : read_bytes d ((lba + done) * 512) (op * 512)
                    ++ read_bytes d ((lba + (done + op)) * 512) ((sec_cnt - (done + op)) * 512)
                  ≡ read_bytes d ((lba + done) * 512) ((sec_cnt - done) * 512) =
                ap
                  (λ (a : ℕ).
                    read_bytes d ((lba + done) * 512) (op * 512)
                    ++ read_bytes d a ((sec_cnt - (done + op)) * 512))
                  (omega arith)
                ∙ sym (
                    read_bytes-append d ((lba + done) * 512) (op * 512)
                      ((sec_cnt - (done + op)) * 512))
                ∙ ap (read_bytes d ((lba + done) * 512)) (omega (arith, fits)) in
              (
                ch2,
                read_rounds_step drive dev_no lba sec_cnt fuel done (lba + done) (done + op) ch ch1
                      more at next d ch2 (read_bytes d ((lba + done) * 512) (op * 512)) _ e1 e2
                    ∙ ap (λ (bs : List ℕ). ok (ch2, bs)) joined,
              )
        ]

    -- For a drive that moves all sectors of a command at once and answers in time, on one of the two
    -- channels, where no interrupt is left that nobody waited for, `ide_read` of some sectors, up to the last one of
    -- 80 MB, does not stop the machine, in as many commands as it takes, and stores the bytes of
    -- these sectors.
    pub ide_read_lem :
        (d : Disk) (lba sec_cnt : ℕ) (ch : IdeChannel)
        → IsWired ch
        → 0 < sec_cnt
        → lba + sec_cnt ≤ max_lba + 1
        → (ch' : IdeChannel) × (ide_read drive d dev_no lba sec_cnt ch
            ≡ ok (ch', Inode.ide_read d lba sec_cnt))
    unfolding ide_read select_disk
    ide_read_lem d lba sec_cnt ch wired pos inside =
        let begun = record ch { regs = record ch.regs { dev = dev_bits dev_no } } in
        let (ch', e) =
          read_rounds_lem d lba sec_cnt sec_cnt 0 begun wired inside (omega arith) (omega arith) in
        let start : (lba + 0) * 512 ≡ lba * 512 = omega arith in
        let count : (sec_cnt - 0) * 512 ≡ sec_cnt * 512 = omega arith in
        let low : leb lba max_lba ≡ true = ground arith in
        (
          ch',
          rw (low, lt→ltb 0 sec_cnt pos) e
              ∙ ap₂ (λ (a n : ℕ). ok (ch', read_bytes d a n)) start count,
        )

    pub write_round_lem :
        (d : Disk) (lba op : ℕ) (buf : List ℕ) (ch : IdeChannel)
        → IsWired ch
        → lba ≤ max_lba
        → 1 ≤ op
        → op ≤ 256
        → op * 512 ≤ length buf
        → (ch' : IdeChannel) × (write_round drive d dev_no lba buf op ch
            ≡ ok (ch', Inode.ide_write d lba (take (op * 512) buf)))
          × IsWired ch'
    unfolding write_round write2sector cmd_out chosen
    write_round_lem d lba op buf ch wired low pos small full =
        let sel = chosen dev_no lba op ch in
        let sent = record sel { expecting_intr = true } in
        let waited = answered_after (answers.pause sent.polls) sent in
        let (woken, e, wired', regs) = wait_done_lem waited wired refl in
        let count : count_of sel.regs ≡ op = count_of-chosen dev_no lba op ch pos small in
        let chunk = take (op * 512) buf in
        let sized : length chunk ≡ count_of sel.regs * 512 =
          length-take (op * 512) buf full ∙ ap (λ (n : ℕ). n * 512) (sym count) in
        let put : drive.data_out d sel.regs (take (size_in_byte op / 2 * 2) buf)
            ≡ Inode.ide_write d lba chunk =
          ap (λ (n : ℕ). drive.data_out d sel.regs (take n buf)) (size_in_byte_lem op pos small)
          ∙ moves.writes d sel.regs chunk sized
          ∙ ap (λ (l : ℕ). Inode.ide_write d l chunk) (lba_of-chosen dev_no lba op ch low) in
        (woken, rw (select_sector-ok dev_no lba op ch low, busy_wait_lem sent, put, e) refl, wired')
