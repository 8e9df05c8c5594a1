-- ===== src/FileIo/RoundTrip.antt =====
-- What is written at the end of a file is read back; and the limits of a write.
use mcy_os.Prelude.{
  ℕ, zero, suc, ◌+◌, ◌-◌, ◌*◌, ◌/◌, ◌^◌, ◌≤◌, ◌<◌, ◌≡◌, refl, ap, ap₂, ◌∙◌, ◌≢◌, true, false, ◌&&◌,
  List, [], ◌∷◌, arith, ℕ_discrete, ltb, leb, ◌==◌, if◌then◌else◌, minus_one, add32, length, get_or,
  take, ok, panic,
}
use mcy_os.Inode.{Disk, Inode}
use mcy_os.Descriptors.{File}
use mcy_os.FileIo.{file_read}
use mcy_os.FileIo.Volume.{Volume}
use mcy_os.FileIo.Write.{write_file, first_block, file_write}
use mcy_os.FileIo.Reading.{file_byte, file_bytes, file_read_lem}
use mcy_os.FileIo.Append.{IsFile, file_write_appends}

file_bytes-are :
    (i : Inode) (d : Disk) (pos n : ℕ) (buf : List ℕ)
    → n ≤ length buf
    → ((k : ℕ) → k < n → file_byte i d (pos + k) ≡ get_or buf k 0)
    → file_bytes i d pos n ≡ take n buf
file_bytes-are i d pos zero buf enough same = refl
file_bytes-are i d pos (suc n) [] enough same = absurd (omega arith)
file_bytes-are i d pos (suc n) (b ∷ buf) enough same =
    let at : pos ≡ pos + 0 = omega arith in
    ap₂ ◌∷◌ (ap (file_byte i d) at ∙ same 0 (omega arith)) (
      file_bytes-are i d (pos + 1) n buf (omega arith) (λ k below.
        let next : pos + 1 + k ≡ pos + suc k = omega arith in
        ap (file_byte i d) next ∙ same (suc k) (omega arith)))

-- With the buffers allocated, some bytes are written that stay in the last block of a file whose
-- blocks are in order, whose inode lies in one sector, and that stays below 139 blocks. A read of as many bytes from the old end of the file then stores just
-- these bytes and moves the position to the new end.
pub file_read-file_write :
    (v : Volume) (i : Inode) (buf : List ℕ) (count : ℕ) (file : File)
    → IsFile v.part i v.disk
    → (i.i_size + count) / 512 ≡ i.i_size / 512
    → i.i_size + count < 139 * 512
    → count ≤ length buf
    → (v' : Volume) × (i' : Inode) × (file' : File) × (file_write true file i buf count v
        ≡ ok (v', i', file', count))
      × (file_read true (record file' { fd_pos = i.i_size }) i' count v'.disk
          ≡ ok (record file' { fd_pos = i.i_size + count }, take count buf, count))
file_read-file_write v i buf count file f same small enough =
    let (d, file', wrote, (bytes, f')) =
      file_write_appends v i buf count f same (omega (arith, small)) enough file in
    let i' = record i { i_size = i.i_size + count } in
    let opened : File = record file' { fd_pos = i.i_size } in
    let data_read : file_bytes i' d i.i_size count ≡ take count buf =
      file_bytes-are i' d i.i_size count buf enough (λ k below.
        let idx : i.i_size + k - i.i_size ≡ k = omega arith in
        bytes (i.i_size + k) (omega arith) ∙ ground arith) in
    let read =
      file_read_lem opened i' count d small (λ h. f'.table (omega (arith, h))) (omega arith)
        (omega (arith, small)) in
    let end : (i.i_size == i.i_size + count && ltb 0 count) ≡ false = ground arith in
    let wanted : (if ltb (i.i_size + count - i.i_size) count
          then i.i_size + count - i.i_size
          else count)
        ≡ count =
      ground arith in
    (record v { disk = d }, i', file', wrote, read ∙ rw (end, wanted, data_read))

-- In a file that has a first block, where the new size does not wrap in 32 bits, and with the
-- buffers allocated, a write that would bring the file to 140 blocks or more fails: above 140 blocks
-- `file_write` returns -1 and changes nothing, and at exactly 140 blocks it stops the machine.
pub file_write_limit :
    (v : Volume) (i : Inode) (buf : List ℕ) (count : ℕ) (file : File)
    → get_or i.i_sectors 0 0 ≢ 0
    → i.i_size + count < 2 ^ 32
    → 140 * 512 ≤ i.i_size + count
    → file_write true file i buf count v
      ≡ (if i.i_size + count == 140 * 512 then panic else ok (v, i, file, minus_one))
unfolding file_write write_file first_block
file_write_limit v i buf count file has_block fits large =
    let sum : add32 i.i_size count ≡ i.i_size + count = omega (arith, fits) in
    let has_first : get_or i.i_sectors 0 0 == 0 ≡ false = ground (arith, has_block) in
    elim (ℕ_discrete (i.i_size + count) (140 * 512)) [
      | yes e ↦
          let guard : ltb (512 * 140) (add32 i.i_size count) ≡ false = ground (arith, sum, e) in
          let bound : leb (add32 i.i_size count / 512 + 1) 140 ≡ false = ground (arith, sum, e) in
          let whole : i.i_size + count == 140 * 512 ≡ true = ground (arith, e) in
          rw (guard, has_first, bound, whole)
      | no ne ↦
          let guard : ltb (512 * 140) (add32 i.i_size count) ≡ true =
            ground (arith, sum, ne, large) in
          let other : i.i_size + count == 140 * 512 ≡ false = ground (arith, ne) in
          rw (guard, other)
    ]
