-- ===== src/FileIo/Reading.antt =====
-- The bytes that `file_read` stores, and where it fails.
use mcy_os.Prelude.{
  ℕ, zero, suc, ◌+◌, ◌-◌, ◌*◌, ◌/◌, ◌%◌, ◌^◌, ◌≤◌, ◌<◌, ◌≡◌, refl, sym, ap, ap₂, ◌∙◌, ◌≢◌, true,
  false, ◌&&◌, List, [], ◌∷◌, ◌++◌, arith, dec_lt, ltb, ◌==◌, if◌then◌else◌, le→not_ltb, minus_one,
  add32, sub32, get_or, take, drop, Result, ok, panic,
}
use mathlib.Core.List.{append_assoc, append-nil}
use mcy_os.Inode.{Disk, ide_read, read_bytes, Inode}
use mcy_os.Descriptors.{File}
use mcy_os.FileIo.{ReadState, chunk_size, read_chunk, read_chunks, read_size, file_read}
use mcy_os.FileIo.Blocks.{block_of, blocks_to_read_lem}

-- What a file holds: the byte at a position, and `n` bytes from it on.
abbrev pub file_byte : Inode → Disk → ℕ → ℕ
file_byte i d pos = d (block_of i d (pos / 512) * 512 + pos % 512)

abbrev pub file_bytes : Inode → Disk → ℕ → ℕ → List ℕ
file_bytes i d pos zero = []
file_bytes i d pos (suc n) = file_byte i d pos ∷ file_bytes i d (pos + 1) n

file_bytes-append :
    (i : Inode) (d : Disk) (pos m n : ℕ)
    → file_bytes i d pos m ++ file_bytes i d (pos + m) n ≡ file_bytes i d pos (m + n)
file_bytes-append i d pos zero n =
    ap (λ p. file_bytes i d p n) {x = pos + 0} {y = pos} (omega arith)
    ∙ ap (file_bytes i d pos) {x = n} {y = 0 + n} (omega arith)
file_bytes-append i d pos (suc m) n =
    let byte = d (block_of i d (pos / 512) * 512 + pos % 512) in
    let later : file_bytes i d (pos + suc m) n ≡ file_bytes i d (pos + 1 + m) n =
      ap (λ p. file_bytes i d p n) (omega arith) in
    let count : suc (m + n) ≡ suc m + n = omega arith in
    ap (λ bs. byte ∷ (file_bytes i d (pos + 1) m ++ bs)) later
    ∙ ap (λ bs. byte ∷ bs) (file_bytes-append i d (pos + 1) m n)
    ∙ ap (file_bytes i d pos) count

drop-read_bytes :
    (d : Disk) (start o n : ℕ) → drop o (read_bytes d start (o + n)) ≡ read_bytes d (start + o) n
drop-read_bytes d start zero n =
    let from : start ≡ start + 0 = omega arith in
    let count : 0 + n ≡ n = omega arith in ap₂ (read_bytes d) from count
drop-read_bytes d start (suc o) n =
    let count : suc o + n ≡ suc (o + n) = omega arith in
    ap (λ m. drop (suc o) (read_bytes d start m)) count
    ∙ drop-read_bytes d (start + 1) o n
    ∙ ap (λ a. read_bytes d a n) {x = start + 1 + o} {y = start + suc o} (omega arith)

take-read_bytes :
    (d : Disk) (start n m : ℕ) → n ≤ m → take n (read_bytes d start m) ≡ read_bytes d start n
take-read_bytes d start zero m h = refl
take-read_bytes d start (suc n) zero h = absurd (omega arith)
take-read_bytes d start (suc n) (suc m) h =
    ap (λ bs. d start ∷ bs) (take-read_bytes d (start + 1) n m (omega arith))

-- Bytes of one block.
in_block :
    (i : Inode) (d : Disk) (q pos n start : ℕ)
    → q * 512 ≤ pos
    → pos + n ≤ q * 512 + 512
    → start + q * 512 ≡ block_of i d q * 512 + pos
    → read_bytes d start n ≡ file_bytes i d pos n
in_block i d q pos zero start from within at = refl
in_block i d q pos (suc n) start from within at =
    let idx : q ≡ pos / 512 = omega (arith, within, from) in
    let addr : start ≡ block_of i d q * 512 + pos % 512 = omega (arith, within, from, at) in
    ap₂ ◌∷◌ (ap d (addr ∙ ap (λ k. block_of i d k * 512 + pos % 512) idx))
      (in_block i d q (pos + 1) n (start + 1) (omega arith) (omega arith) (omega (arith, at)))

chunk_bytes :
    (i : Inode) (d : Disk) (lba pos n : ℕ)
    → lba ≡ block_of i d (pos / 512)
    → pos % 512 + n ≤ 512
    → take n (drop (pos % 512) (ide_read d lba 1)) ≡ file_bytes i d pos n
chunk_bytes i d lba pos n e fits =
    let off = pos % 512 in
    let size : 1 * 512 ≡ off + (512 - off) = omega (arith, fits) in
    ap (λ m. take n (drop off (read_bytes d (lba * 512) m))) size
    ∙ ap (take n) (drop-read_bytes d (lba * 512) off (512 - off))
    ∙ take-read_bytes d (lba * 512 + off) n (512 - off) (omega (arith, fits))
    ∙ in_block i d (pos / 512) pos n (lba * 512 + off) (omega arith) (omega (arith, fits))
        (omega (arith, e))

-- The loop reads all that is left, when the addresses of the blocks have been collected.
module _ (i : Inode) (d : Disk) (size : ℕ) (all : List ℕ) where
  abbrev finished : ReadState → ReadState
  finished r = record {
    fd_pos = r.fd_pos + r.size_left;
    bytes_read = r.bytes_read + r.size_left;
    size_left = 0;
    stored = r.stored ++ file_bytes i d r.fd_pos r.size_left;
  }

  abbrev Collected : ReadState → Type 0
  Collected r =
      (k : ℕ)
      → r.fd_pos / 512 ≤ k
      → k ≤ (r.fd_pos + r.size_left) / 512
      → get_or all k 0 ≡ block_of i d k

  abbrev next : ReadState → ℕ → ReadState
  next r chunk = record {
    fd_pos = r.fd_pos + chunk;
    bytes_read = r.bytes_read + chunk;
    size_left = r.size_left - chunk;
    stored = r.stored ++ file_bytes i d r.fd_pos chunk;
  }

  -- A round reads some bytes, and none only when none are left.
  read_chunk_lem :
      (r : ReadState)
      → Collected r
      → (chunk : ℕ) × (read_chunk d all r ≡ next r chunk)
        × (chunk ≤ r.size_left)
        × (0 < r.size_left → 0 < chunk)
  unfolding read_chunk
  read_chunk_lem r collected =
      let chunk = chunk_size r.size_left (512 - r.fd_pos % 512) in
      (
        chunk,
        ap
            (λ bs. record {
              fd_pos = r.fd_pos + chunk;
              bytes_read = r.bytes_read + chunk;
              size_left = r.size_left - chunk;
              stored = r.stored ++ bs;
            })
            (chunk_bytes i d (get_or all (r.fd_pos / 512) 0) r.fd_pos chunk
              (collected (r.fd_pos / 512) (omega arith) (omega arith)) (ground arith)),
        ground arith,
        λ some_left. ground arith,
      )

  finished_next :
      (r : ReadState) (chunk : ℕ) → chunk ≤ r.size_left → finished (next r chunk) ≡ finished r
  finished_next r chunk h =
      let total : chunk + (r.size_left - chunk) ≡ r.size_left = omega arith in
      let pos : r.fd_pos + chunk + (r.size_left - chunk) ≡ r.fd_pos + r.size_left = omega arith in
      let bytes : r.bytes_read + chunk + (r.size_left - chunk) ≡ r.bytes_read + r.size_left =
        omega arith in
      let bytes_stored : r.stored
            ++ file_bytes i d r.fd_pos chunk
            ++ file_bytes i d (r.fd_pos + chunk) (r.size_left - chunk)
          ≡ r.stored ++ file_bytes i d r.fd_pos r.size_left =
        append_assoc r.stored (file_bytes i d r.fd_pos chunk)
          (file_bytes i d (r.fd_pos + chunk) (r.size_left - chunk))
        ∙ ap (λ bs. r.stored ++ bs)
            (file_bytes-append i d r.fd_pos chunk (r.size_left - chunk)
              ∙ ap (file_bytes i d r.fd_pos) total) in
      rw (pos, bytes, bytes_stored)

  nothing_left : (r : ReadState) → r.size_left ≡ 0 → r ≡ finished r
  nothing_left r e =
      let pos : r.fd_pos + r.size_left ≡ r.fd_pos = omega arith in
      let bytes : r.bytes_read + r.size_left ≡ r.bytes_read = omega arith in
      let bytes_stored : r.stored ++ file_bytes i d r.fd_pos r.size_left ≡ r.stored =
        ap (λ n. r.stored ++ file_bytes i d r.fd_pos n) e ∙ append-nil r.stored in
      sym (rw (pos, bytes, bytes_stored, e))

  read_chunks_lem :
      (fuel : ℕ) (r : ReadState)
      → r.bytes_read + r.size_left ≡ size
      → r.size_left ≤ fuel
      → Collected r
      → read_chunks fuel size d all r ≡ finished r
  unfolding read_chunks
  read_chunks_lem zero r total enough collected = nothing_left r (omega arith)
  read_chunks_lem (suc fuel) r total enough collected =
      let (chunk, e, below, moves) = read_chunk_lem r collected in
      elim (dec_lt r.bytes_read size) [
        | no over ↦ ground (arith, over, nothing_left r (omega (arith, over)))
        | yes more ↦
            let rest : read_chunks fuel size d all (read_chunk d all r) ≡ finished r =
              ap (read_chunks fuel size d all) e
              ∙ read_chunks_lem fuel (next r chunk) (omega (arith, below))
                  (omega (arith, moves (omega (arith, more)), below))
                  (λ k from to. collected k (omega arith) (omega (arith, below)))
              ∙ finished_next r chunk below in
            ground (arith, more, rest)
      ]

-- The addresses of the table are there when the file needs it.
abbrev HasTable : Inode → ℕ → Type 0
HasTable i end_pos = 12 * 512 ≤ end_pos → get_or i.i_sectors 12 0 ≢ 0

abbrev read_result : File → Inode → Disk → ℕ → Result (File × List ℕ × ℕ)
read_result file i d n =
    ok (record file { fd_pos = file.fd_pos + n }, file_bytes i d file.fd_pos n, n)

read_size_lem :
    (file : File) (i : Inode) (n : ℕ) (d : Disk)
    → file.fd_pos + n < 139 * 512
    → HasTable i (file.fd_pos + n)
    → read_size true file i n d ≡ read_result file i d n
unfolding read_size
read_size_lem file i n d small table =
    let pos = file.fd_pos in
    let last : add32 pos n / 512 ≡ (pos + n) / 512 = omega (arith, small) in
    let bound : (ltb (pos / 512) 139 && ltb (add32 pos n / 512) 139) ≡ true =
      ground (arith, small) in
    let begun : ReadState = record { fd_pos = pos; bytes_read = 0; size_left = n; stored = [] } in
    let (all, collected, blocks) =
      blocks_to_read_lem i d (pos / 512) ((pos + n) / 512) (omega arith) (omega (arith, small))
        (λ e. table (omega (arith, e))) in
    let loop : read_chunks n n d all begun ≡ finished i d n all begun =
      read_chunks_lem i d n all n begun (omega arith) (omega arith) blocks in
    let count : 0 + n ≡ n = omega arith in rw (bound, last, collected, loop, count)

-- In a file with fewer than 139 blocks, whose table of blocks is there when it is needed, and with
-- the position not behind its end and the position plus the number wanted not wrapping in 32 bits,
-- `file_read` with its buffers allocated returns -1 and changes nothing when the position is the end
-- and some bytes are wanted. Else it stores the bytes of the file from the position on, as many as
-- are wanted or are left, moves the position behind them and returns their number.
pub file_read_lem :
    (file : File) (i : Inode) (count : ℕ) (d : Disk)
    → i.i_size < 139 * 512
    → HasTable i i.i_size
    → file.fd_pos ≤ i.i_size
    → file.fd_pos + count < 2 ^ 32
    → file_read true file i count d ≡ (
        if file.fd_pos == i.i_size && ltb 0 count
        then ok (file, [], minus_one)
        else read_result file i d
            (if ltb (i.i_size - file.fd_pos) count then i.i_size - file.fd_pos else count))
unfolding file_read
file_read_lem file i count d small table inside fits =
    let pos = file.fd_pos in
    let left : sub32 i.i_size pos ≡ i.i_size - pos = omega (arith, small, inside) in
    let sum : add32 pos count ≡ pos + count = omega (arith, fits) in
    let to_end : read_size true file i (i.i_size - pos) d ≡ read_result file i d (i.i_size - pos) =
      read_size_lem file i (i.i_size - pos) d (omega (arith, small, inside))
        (λ h. table (omega (arith, h, inside))) in
    elim (dec_lt i.i_size (pos + count)) [
      | yes more ↦ ground (arith, left, sum, to_end, more, inside)
      | no within ↦
          let all : read_size true file i count d ≡ read_result file i d count =
            read_size_lem file i count d (omega (arith, small, within))
              (λ h. table (omega (arith, h, within))) in
          ground (arith, sum, all, within)
    ]

-- When a read would end in block 139 or behind it, in a file that is long enough, `file_read` stops
-- the machine.
pub file_read_stops :
    (file : File) (i : Inode) (count : ℕ) (d : Disk)
    → file.fd_pos + count ≤ i.i_size
    → i.i_size < 2 ^ 32
    → 139 * 512 ≤ file.fd_pos + count
    → file_read true file i count d ≡ panic
unfolding file_read read_size
file_read_stops file i count d inside fits far =
    let sum : add32 file.fd_pos count ≡ file.fd_pos + count = omega (arith, fits, inside) in
    let bound : (ltb (file.fd_pos / 512) 139 && ltb ((file.fd_pos + count) / 512) 139) ≡ false =
      ground (arith, far) in
    rw (sum, le→not_ltb i.i_size (file.fd_pos + count) inside, bound)
