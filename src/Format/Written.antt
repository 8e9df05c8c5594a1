-- ===== src/Format/Written.antt =====
-- A buffer on the disk: the bytes that it covers and the others.
use mcy_os.Prelude.{
  ℕ, ◌+◌, ◌-◌, ◌*◌, ◌≤◌, ◌<◌, ◌≡◌, ◌⊎◌, inl, inr, List, arith, length, get_or, take,
}
use mcy_os.Prelude.{length-take, get_or-take}
use mcy_os.Inode.{Disk, ide_read}
use mcy_os.Inode.Layout.{get_or-read_bytes}
use mcy_os.Format.{write_sectors}

module _ (d : Disk) (lba : ℕ) (buf : List ℕ) (n : ℕ) (fits : n * 512 ≤ length buf) where
  sized : length (take (n * 512) buf) ≡ n * 512
  sized = length-take (n * 512) buf fits

  -- A byte of the sectors that are written.
  pub write_sectors-inside :
      (i : ℕ) → i < n * 512 → write_sectors d lba buf n (lba * 512 + i) ≡ get_or buf i 0
  write_sectors-inside i below =
      let at : lba * 512 + i - lba * 512 ≡ i = omega arith in
      ground (arith, at, sized, below, get_or-take (n * 512) i buf below)

  -- A byte of other sectors.
  pub write_sectors-outside :
      (other m i : ℕ)
      → (other + m ≤ lba) ⊎ (lba + n ≤ other)
      → i < m * 512
      → write_sectors d lba buf n (other * 512 + i) ≡ d (other * 512 + i)
  write_sectors-outside other m i apart below = elim apart [
    | inl before ↦
        let low : other * 512 + i < lba * 512 = omega (arith, before, below) in
        ground (arith, low, sized)
    | inr behind ↦
        let high : lba * 512 + n * 512 ≤ other * 512 + i = omega (arith, behind) in
        ground (arith, high, sized)
  ]

-- A byte of sectors that are read.
pub get_or-ide_read :
    (d : Disk) (lba n i : ℕ) → i < n * 512 → get_or (ide_read d lba n) i 0 ≡ d (lba * 512 + i)
get_or-ide_read d lba n i below = get_or-read_bytes d (lba * 512) (n * 512) i below
