-- ===== src/Ide.antt =====
-- device/ide.c: the commands to the IDE controller, and the scan of the partition tables.
-- The controller is hardware: `Drive` gives the answers of its status register, one for each time
-- that it is read, the bytes of its data port and what it does with bytes that are put there. The
-- lock of a channel is left out, and a channel serves one command at a time: the interrupt that the
-- drive raises for a command comes while the task sleeps in `sema_down`.
pub mod Transfer
pub mod Writes
pub mod Partitions
pub mod Chains
mod Tests
use Prim.Native.Nat.{bit_or}
use mcy_os.Prelude.{
  ℕ, zero, suc, ◌+◌, ◌-◌, ◌*◌, ◌/◌, ◌%◌, ◌^◌, ◌≤◌, ◌<◌, ◌≡◌, refl, sym, ap, ap₂, subst, ◌∙◌, ◌≢◌,
  ◌↔◌, ◌⊎◌, inl, inr, Bool, true, false, not, ◌&&◌, ◌||◌, Option, none, some, List, [], ◌∷◌, ◌++◌,
  arith, dec_lt, ℕ_discrete, all_below, all_below_sound, ltb, leb, ◌==◌, if◌then◌else◌, ltb→lt,
  lt→ltb, le→not_ltb, leb→le, ==_iff, ==_refl, ==_ne, Bool-cases, and_left, and_right, minus_one,
  add32, sub32, length, get_or, set, take, drop, replicate, length-append, length-set,
  get_or-set_self, get_or-set_ne, get_or-set, get_or_outside, length-replicate, get_or-replicate,
  Result, ok, panic, ◌>>=◌, ◌>>◌, assert,
}
use mcy_os.Inode.{Disk}

-- What is written to the ports of a channel.
pub record Regs : Type 0 where
  pub sect_cnt : ℕ
  pub lba_l : ℕ
  pub lba_m : ℕ
  pub lba_h : ℕ
  pub dev : ℕ

-- `struct ide_channel`, its ports, how often the status port has been read, and for how many
-- milliseconds `busy_wait` has slept
pub record IdeChannel : Type 0 where
  pub irq_no : ℕ
  pub expecting_intr : Bool
  pub disk_done : ℕ
  pub regs : Regs
  pub polls : ℕ
  pub slept : ℕ

pub record Drive : Type 0 where
  pub status : ℕ → ℕ
  pub data_in : Disk → Regs → ℕ → List ℕ
  pub data_out : Disk → Regs → List ℕ → Disk

abbrev pub max_lba : ℕ
max_lba = 80 * 1024 * 1024 / 512 - 1

-- `BIT_DEV_MBS | BIT_DEV_LBA`, and `BIT_DEV_DEV` for the second disk
abbrev pub dev_bits : ℕ → ℕ
dev_bits dev_no = bit_or (bit_or 0xa0 0x40) (if dev_no == 1 then 0x10 else 0)

unfoldable pub select_disk : ℕ → IdeChannel → IdeChannel
select_disk dev_no channel = record channel { regs = record channel.regs { dev = dev_bits dev_no } }

-- `sec_cnt` is a `uint8_t`, and `outb` takes a byte.
unfoldable pub select_sector : ℕ → ℕ → ℕ → IdeChannel → Result IdeChannel
select_sector dev_no lba sec_cnt channel =
    assert (leb lba max_lba)
    >> ok (record channel {
      regs = record {
        sect_cnt = sec_cnt % 2 ^ 8;
        lba_l = lba % 2 ^ 8;
        lba_m = lba / 2 ^ 8 % 2 ^ 8;
        lba_h = lba / 2 ^ 16 % 2 ^ 8;
        dev = bit_or (dev_bits dev_no) (lba / 2 ^ 24) % 2 ^ 8;
      };
    })

unfoldable pub cmd_out : IdeChannel → IdeChannel
cmd_out channel = record channel { expecting_intr = true }

-- `size_in_byte` of `read_from_sector` and `write2sector`; `sec_cnt` is a `uint8_t`.
unfoldable pub size_in_byte : ℕ → ℕ
size_in_byte sec_cnt = if sec_cnt % 2 ^ 8 == 0 then 256 * 512 else sec_cnt % 2 ^ 8 * 512

-- `insw` takes words, so twice as many bytes.
unfoldable pub read_from_sector : Drive → Disk → ℕ → IdeChannel → List ℕ
read_from_sector drive d sec_cnt channel =
    drive.data_in d channel.regs (size_in_byte sec_cnt / 2 * 2)

unfoldable pub write2sector : Drive → Disk → List ℕ → ℕ → IdeChannel → Disk
write2sector drive d buf sec_cnt channel =
    drive.data_out d channel.regs (take (size_in_byte sec_cnt / 2 * 2) buf)

-- `BIT_STAT_BSY` and `BIT_STAT_DRQ`
abbrev pub is_busy : ℕ → Bool
is_busy status = status / 2 ^ 7 % 2 == 1

abbrev pub has_data : ℕ → Bool
has_data status = status / 2 ^ 3 % 2 == 1

abbrev pub mtime_sleep : ℕ → IdeChannel → IdeChannel
mtime_sleep m_seconds channel = record channel { slept = channel.slept + m_seconds }

-- `inb(reg_status(channel))`: the channel after it.
abbrev pub read_status : IdeChannel → IdeChannel
read_status channel = record channel { polls = channel.polls + 1 }

-- The loop of `busy_wait`, with the rounds left.
unfoldable pub busy_from : ℕ → Drive → IdeChannel → IdeChannel × Bool
busy_from zero drive channel = (channel, false)
busy_from (suc left) drive channel =
    let looked = read_status channel in
    let rest = busy_from left drive (mtime_sleep 10 looked) in
    if is_busy (drive.status channel.polls)
    then rest
    else (read_status looked, has_data (drive.status looked.polls))

-- `time_limit -= 10 >= 0` takes 1 off `time_limit`, since `>=` binds tighter.
unfoldable pub busy_wait : Drive → IdeChannel → IdeChannel × Bool
busy_wait drive channel = busy_from 29999 drive channel

-- `sema_up(&disk_done)`, with the tests that it makes of the value.
unfoldable pub disk_done_up : IdeChannel → Result IdeChannel
disk_done_up channel = do
  assert (channel.disk_done == 0)
  ok (record channel { disk_done = channel.disk_done + 1 })

-- The handler for the channel that `irq_no` selects in `channels`.
unfoldable pub intr_hd_handler : ℕ → IdeChannel → Result IdeChannel
intr_hd_handler irq_no channel = do
  assert (irq_no == 0x2e || irq_no == 0x2f)
  assert (channel.irq_no == irq_no)
  let done = disk_done_up (record channel { expecting_intr = false }) >>= λ up. ok (read_status up)
  if channel.expecting_intr then done else ok channel

-- `sema_down(&disk_done)`. The interrupt of the drive comes while the task sleeps, which it does
-- where the value is 0; a task that would sleep for ever counts as a machine that stops. Where the
-- value is not 0 the task goes on without the interrupt, and what comes of an interrupt after that is
-- not followed: the properties have a value of 0.
unfoldable pub wait_done : IdeChannel → Result IdeChannel
wait_done channel = do
  woken ← if channel.disk_done == 0 then intr_hd_handler channel.irq_no channel else ok channel
  assert (ltb 0 woken.disk_done)
  let down = record woken { disk_done = woken.disk_done - 1 }
  assert (down.disk_done == 0)
  ok down

-- The sectors of one round.
abbrev pub round_size : ℕ → ℕ → ℕ
round_size secs_done sec_cnt =
    if leb (add32 secs_done 256) sec_cnt then 256 else sec_cnt - secs_done

-- One round of the loop of `ide_read`: the bytes that it stores.
unfoldable pub read_round : Drive → Disk → ℕ → ℕ → ℕ → IdeChannel → Result (IdeChannel × List ℕ)
read_round drive d dev_no lba secs_op channel = do
  selected ← select_sector dev_no lba secs_op channel
  woken ← wait_done (cmd_out selected)
  let waited = busy_wait drive woken
  assert (waited.1)
  ok (waited.0, read_from_sector drive d secs_op (waited.0))

-- A round moves at least one sector, so `sec_cnt` rounds are enough.
unfoldable pub read_rounds :
    ℕ → Drive → Disk → ℕ → ℕ → ℕ → ℕ → IdeChannel → Result (IdeChannel × List ℕ)
read_rounds zero drive d dev_no lba sec_cnt secs_done channel = ok (channel, [])
read_rounds (suc fuel) drive d dev_no lba sec_cnt secs_done channel =
    let secs_op = round_size secs_done sec_cnt in
    let rest = read_round drive d dev_no (add32 lba secs_done) secs_op channel >>= λ (ch, bytes).
    read_rounds fuel drive d dev_no lba sec_cnt (add32 secs_done secs_op) ch >>= λ (ch', later).
    ok (ch', bytes ++ later) in
    if ltb secs_done sec_cnt then rest else ok (channel, [])

unfoldable pub ide_read : Drive → Disk → ℕ → ℕ → ℕ → IdeChannel → Result (IdeChannel × List ℕ)
ide_read drive d dev_no lba sec_cnt channel = do
  assert (leb lba max_lba)
  assert (ltb 0 sec_cnt)
  read_rounds sec_cnt drive d dev_no lba sec_cnt 0 (select_disk dev_no channel)

unfoldable pub write_round :
    Drive → Disk → ℕ → ℕ → List ℕ → ℕ → IdeChannel → Result (IdeChannel × Disk)
write_round drive d dev_no lba buf secs_op channel = do
  selected ← select_sector dev_no lba secs_op channel
  let waited = busy_wait drive (cmd_out selected)
  assert (waited.1)
  let d' = write2sector drive d buf secs_op (waited.0)
  woken ← wait_done (waited.0)
  ok (woken, d')

unfoldable pub write_rounds :
    ℕ → Drive → Disk → ℕ → ℕ → List ℕ → ℕ → ℕ → IdeChannel → Result (IdeChannel × Disk)
write_rounds zero drive d dev_no lba buf sec_cnt secs_done channel = ok (channel, d)
write_rounds (suc fuel) drive d dev_no lba buf sec_cnt secs_done channel =
    let secs_op = round_size secs_done sec_cnt in
    let from = drop (secs_done * 512) buf in
    let rest = write_round drive d dev_no (add32 lba secs_done) from secs_op channel >>= λ (ch, d').
    write_rounds fuel drive d' dev_no lba buf sec_cnt (add32 secs_done secs_op) ch in
    if ltb secs_done sec_cnt then rest else ok (channel, d)

unfoldable pub ide_write :
    Drive → Disk → ℕ → ℕ → List ℕ → ℕ → IdeChannel → Result (IdeChannel × Disk)
ide_write drive d dev_no lba buf sec_cnt channel = do
  assert (leb lba max_lba)
  assert (ltb 0 sec_cnt)
  write_rounds sec_cnt drive d dev_no lba buf sec_cnt 0 (select_disk dev_no channel)

-- The loop of `swap_pairs_bytes`, for an even number of bytes that is below 256.
unfoldable pub swap_pairs_bytes : List ℕ → List ℕ
swap_pairs_bytes (a ∷ b ∷ rest) = b ∷ a ∷ swap_pairs_bytes rest
swap_pairs_bytes rest = rest
