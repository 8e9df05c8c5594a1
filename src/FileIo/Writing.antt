-- ===== src/FileIo/Writing.antt =====
-- The loop of `file_write`: what it leaves on the disk.
use mcy_os.Prelude.{
  get_or-drop, length-drop, length-take, get_or-take, ℕ, zero, suc, ◌+◌, ◌-◌, ◌*◌, ◌/◌, ◌%◌, ◌≤◌,
  ◌<◌, ◌≡◌, refl, sym, ap, ap₂, subst, ◌∙◌, ◌≢◌, ◌⊎◌, inl, inr, Bool, true, false, ◌&&◌, List,
  arith, dec_lt, ℕ_discrete, ltb, leb, if◌then◌else◌, Bool-cases, add32, length, get_or, take, drop,
  replicate, length-replicate,
}
use mcy_os.Inode.{Disk, ide_read, ide_write, copy_at}
use mcy_os.Inode.Layout.{
  length-read_bytes, get_or-read_bytes, length-copy_at, get_or-copy_at_outside,
  get_or-copy_at_inside,
}
use mcy_os.FileIo.{chunk_size}
use mcy_os.FileIo.Write.{ChunkState, write_chunk, write_chunks}

module _ (d : Disk) (lba : ℕ) (buf : List ℕ) (l : length buf ≡ 512) where
  wrote_inside : (o : ℕ) → o < 512 → ide_write d lba buf (lba * 512 + o) ≡ get_or buf o 0
  wrote_inside o h =
      let at : lba * 512 + o - lba * 512 ≡ o = omega arith in ground (arith, at, l, h)

  wrote_outside : (a : ℕ) → a / 512 ≢ lba → ide_write d lba buf a ≡ d a
  wrote_outside a h =
      let apart : (leb (lba * 512) a && ltb a (lba * 512 + length buf)) ≡ false =
        ground (arith, l, h) in
      rw apart

-- The place on the disk of a position of the file.
abbrev pub place : List ℕ → ℕ → ℕ
place all pos = get_or all (pos / 512) 0 * 512 + pos % 512

-- No block of the table in a range stands there twice.
abbrev pub Distinct : List ℕ → ℕ → ℕ → Type 0
Distinct all lo hi =
    (j k : ℕ) → lo ≤ j → j ≤ hi → lo ≤ k → k ≤ hi → get_or all j 0 ≡ get_or all k 0 → j ≡ k

-- The bytes `src` have been put behind the end of the file, and nothing else has changed.
pub record Wrote (all : List ℕ) (lo hi : ℕ) (s : ChunkState) (n : ℕ) (s' : ChunkState)
    : Type 0 where
  pub size : s'.i_size ≡ s.i_size + n
  pub written : s'.bytes_written ≡ s.bytes_written + n
  pub new_bytes : (k : ℕ) → k < n → s'.disk (place all (s.i_size + k)) ≡ get_or s.src k 0
  pub old_bytes :
      (p : ℕ) → lo ≤ p / 512 → p < s.i_size → s'.disk (place all p) ≡ s.disk (place all p)
  pub elsewhere :
      (a : ℕ) → ((k : ℕ) → lo ≤ k → k ≤ hi → a / 512 ≢ get_or all k 0) → s'.disk a ≡ s.disk a

-- The buffer holds the old bytes of the block, or there are none.
abbrev Begins : ChunkState → Type 0
Begins s = (s.first_write_block ≡ true) ⊎ (s.i_size % 512 ≡ 0)

module _ (count : ℕ) (all : List ℕ) (lo hi : ℕ) (distinct : Distinct all lo hi) where
  Wrote-trans :
      (s s1 s2 : ChunkState) (m n : ℕ)
      → lo ≤ s.i_size / 512
      → s1.src ≡ drop m s.src
      → Wrote all lo hi s m s1
      → Wrote all lo hi s1 n s2
      → Wrote all lo hi s (m + n) s2
  Wrote-trans s s1 s2 m n above src w w' = record {
    size = omega (arith, w.size, w'.size);
    written = omega (arith, w.written, w'.written);
    new_bytes = λ k below. elim (dec_lt k m) [
      | yes earlier ↦
          w'.old_bytes (s.i_size + k) (omega arith) (omega (arith, earlier, w.size))
          ∙ w.new_bytes k earlier
      | no later ↦
          let at : s.i_size + k ≡ s1.i_size + (k - m) = omega (arith, later, w.size) in
          let idx : m + (k - m) ≡ k = omega (arith, later) in
          ap (λ p. s2.disk (place all p)) at
          ∙ w'.new_bytes (k - m) (omega (arith, later, below))
          ∙ ap (λ xs. get_or xs (k - m) 0) src
          ∙ get_or-drop m (k - m) s.src
          ∙ ap (λ j. get_or s.src j 0) idx
    ];
    old_bytes = λ p from below.
        w'.old_bytes p from (omega (arith, w.size, below)) ∙ w.old_bytes p from below;
    elsewhere = λ a apart. w'.elsewhere a apart ∙ w.elsewhere a apart;
  }

  module _ (s : ChunkState) (lower : lo ≤ s.i_size / 512) (upper : s.i_size / 512 ≤ hi) where
    lba : ℕ
    lba = get_or all (s.i_size / 512) 0

    choice : Bool → List ℕ
    choice first = if first then ide_read s.disk lba 1 else replicate 512 zero

    read_buf : List ℕ
    read_buf = choice s.first_write_block

    length-read_buf : length read_buf ≡ 512
    unfolding read_buf choice
    length-read_buf = elim (Bool-cases s.first_write_block) [
      | inl e ↦ ap (λ b. length (choice b)) e ∙ length-read_bytes s.disk (lba * 512) 512
      | inr e ↦ ap (λ b. length (choice b)) e ∙ length-replicate 512 zero
    ]

    kept_byte :
        (o : ℕ) → Begins s → o < s.i_size % 512 → get_or read_buf o 0 ≡ s.disk (lba * 512 + o)
    unfolding read_buf choice
    kept_byte o (inl e) h =
        ap (λ b. get_or (choice b) o 0) e ∙ get_or-read_bytes s.disk (lba * 512) 512 o (omega arith)
    kept_byte o (inr e) h = absurd (omega arith)

    module _ (n : ℕ) (fits : s.i_size % 512 + n ≤ 512) (enough : n ≤ length s.src) where
      filled : List ℕ
      filled = copy_at read_buf (s.i_size % 512) (take n s.src)

      length-filled : length filled ≡ 512
      unfolding filled
      length-filled = length-copy_at read_buf (s.i_size % 512) (take n s.src) ∙ length-read_buf

      after : ChunkState
      after = record {
        disk = ide_write s.disk lba filled;
        i_size = s.i_size + n;
        fd_pos = add32 s.fd_pos n;
        bytes_written = s.bytes_written + n;
        src = drop n s.src;
        first_write_block = false;
      }

      -- One block written.
      after-Wrote : Begins s → Wrote all lo hi s n after
      unfolding after lba filled
      after-Wrote begins =
          let q = s.i_size / 512 in
          let off = s.i_size % 512 in
          record {
            size = refl;
            written = refl;
            new_bytes = λ k below.
                let block : (s.i_size + k) / 512 ≡ q = omega (arith, fits, below) in
                let rest : (s.i_size + k) % 512 ≡ off + k = omega (arith, fits, below) in
                ap₂ (λ j o. ide_write s.disk lba filled (get_or all j 0 * 512 + o)) block rest
                ∙ wrote_inside s.disk lba filled length-filled (off + k)
                    (omega (arith, fits, below))
                ∙ get_or-copy_at_inside read_buf off (take n s.src) k
                    (omega (arith, length-take n s.src enough, below))
                    (omega (arith, length-take n s.src enough, length-read_buf, fits))
                ∙ get_or-take n k s.src below;
            old_bytes = λ p from below. elim (ℕ_discrete (p / 512) q) [
              | yes same ↦
                  let before : p % 512 < off = omega (arith, same, below) in
                  ap (λ j. ide_write s.disk lba filled (get_or all j 0 * 512 + p % 512)) same
                  ∙ wrote_inside s.disk lba filled length-filled (p % 512) (omega arith)
                  ∙ get_or-copy_at_outside read_buf off (take n s.src) (p % 512) (inl before)
                  ∙ kept_byte (p % 512) begins before
                  ∙ ap (λ j. s.disk (get_or all j 0 * 512 + p % 512)) (sym same)
              | no other ↦ wrote_outside s.disk lba filled length-filled (place all p) (λ e. other (
                  distinct (p / 512) q from (omega (arith, below, upper)) lower upper
                    (omega (arith, e))))
            ];
            elsewhere =
                λ a apart. wrote_outside s.disk lba filled length-filled a (apart q lower upper);
          }

  Wrote-none : (s : ChunkState) → Wrote all lo hi s 0 s
  Wrote-none s = record {
    size = omega arith;
    written = omega arith;
    new_bytes = λ k below. absurd (omega arith);
    old_bytes = λ p from below. refl;
    elsewhere = λ a apart. refl;
  }

  -- A round of the loop is one block written: to its end, or until nothing is left.
  write_chunk_lem :
      (s : ChunkState) (lower : lo ≤ s.i_size / 512) (upper : s.i_size / 512 ≤ hi)
      → s.bytes_written < count
      → count - s.bytes_written ≤ length s.src
      → (n : ℕ) × (fits : s.i_size % 512 + n ≤ 512) × (enough : n ≤ length s.src) × (write_chunk
            count all s
          ≡ after s lower upper n fits enough)
        × (0 < n)
        × (n ≤ count - s.bytes_written)
        × (n < count - s.bytes_written → (s.i_size + n) % 512 ≡ 0)
  unfolding write_chunk after filled read_buf choice lba
  write_chunk_lem s lower upper more enough =
      let n = chunk_size (count - s.bytes_written) (512 - s.i_size % 512) in
      let below : n ≤ count - s.bytes_written = ground arith in
      (
        n,
        ground arith,
        omega (arith, below, enough),
        refl,
        ground (arith, more),
        below,
        λ less. ground (arith, less),
      )

  pub write_chunks_lem :
      (fuel : ℕ) (s : ChunkState)
      → count - s.bytes_written ≤ fuel
      → count - s.bytes_written ≤ length s.src
      → lo ≤ s.i_size / 512
      → s.i_size + (count - s.bytes_written) ≤ hi * 512 + 512
      → (s.bytes_written < count → Begins s)
      → Wrote all lo hi s (count - s.bytes_written) (write_chunks fuel count all s)
  unfolding write_chunks after
  write_chunks_lem zero s fuel enough lower upper begins =
      subst (λ n. Wrote all lo hi s n s) (omega arith) (Wrote-none s)
  write_chunks_lem (suc fuel) s fuel_enough enough lower upper begins =
      let goal = λ (s' : ChunkState). Wrote all lo hi s (count - s.bytes_written) s' in
      let rest = write_chunks fuel count all (write_chunk count all s) in
      elim (dec_lt s.bytes_written count) [
        | no over ↦
            let stop : s ≡ (if ltb s.bytes_written count then rest else s) = ground (arith, over) in
            subst goal stop
              (subst (λ n. Wrote all lo hi s n s) (omega (arith, over)) (Wrote-none s))
        | yes more ↦
            let top : s.i_size / 512 ≤ hi = omega (arith, more, upper) in
            let (n, fits, n_enough, e, pos, below, full) =
              write_chunk_lem s lower top more enough in
            let s1 = after s lower top n fits n_enough in
            let left : count - (s.bytes_written + n) + n ≡ count - s.bytes_written =
              omega (arith, below, more) in
            let go : write_chunks fuel count all s1
                ≡ (if ltb s.bytes_written count then rest else s) =
              ap (write_chunks fuel count all) (sym e) ∙ ground (arith, more) in
            let ih : Wrote all lo hi s1 (count - (s.bytes_written + n))
                (write_chunks fuel count all s1) =
              write_chunks_lem fuel s1 (omega (arith, pos, left, fuel_enough))
                (omega (arith, length-drop n s.src n_enough, left, enough)) (omega (arith, lower))
                (omega (arith, left, upper)) (λ again. inr (full (omega (arith, again, below)))) in
            let whole : n + (count - (s.bytes_written + n)) ≡ count - s.bytes_written =
              omega (arith, left) in
            subst goal go (
              subst (λ m. Wrote all lo hi s m (write_chunks fuel count all s1)) whole
                (Wrote-trans s s1 (write_chunks fuel count all s1) n (count - (s.bytes_written + n))
                  lower refl (after-Wrote s lower top n fits n_enough (begins more)) ih))
      ]
