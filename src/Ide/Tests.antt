-- ===== src/Ide/Tests.antt =====
-- Runs of the disk driver, and its theorems at a drive and a disk that meet their conditions.
use mcy_os.Prelude.{
  ℕ, zero, suc, ◌+◌, ◌*◌, ◌<◌, ◌≡◌, refl, false, ◌||◌, [], ◌∷◌, arith, ltb, ◌==◌, if◌then◌else◌,
  replicate, length-replicate, ok, panic,
}
use mcy_os.Inode.{Disk}
use mcy_os.Inode
use mcy_os.Ide.{IdeChannel, Drive, swap_pairs_bytes, ide_read, ide_write}
use mcy_os.Ide.Transfer.{MovesSectors, AnswersInTime, count_of, lba_of, ide_read_lem}
use mcy_os.Ide.Writes.{ide_write_lem}
use mcy_os.Ide.Partitions.{table_entry, PartScan, no_part, partition_scan}
use mcy_os.Ide.Chains.{IsUsed, Chain, chain_parts, partition_scan-Chain, partition_scan_four}

abbrev ready_drive : Drive
ready_drive = record {
  status = λ n. 8;
  data_in = λ d r n. Inode.ide_read d (lba_of r) (count_of r);
  data_out = λ d r bytes. Inode.ide_write d (lba_of r) bytes;
}

abbrev busy_drive : Drive
busy_drive = record ready_drive { status = λ n. 0x80 }

ready_drive-MovesSectors : MovesSectors ready_drive
ready_drive-MovesSectors = record { reads = λ d r. refl; writes = λ d r bytes l. refl }

abbrev ready_drive-AnswersInTime : AnswersInTime ready_drive
ready_drive-AnswersInTime = record {
  pause = λ n. 0;
  short = λ n. omega arith;
  before = λ n j h. absurd (omega arith);
  after = λ n. refl;
  with_data = λ n. refl;
}

abbrev primary_channel : IdeChannel
primary_channel = record {
  irq_no = 0x2e;
  expecting_intr = false;
  disk_done = 0;
  regs = record { sect_cnt = 0; lba_l = 0; lba_m = 0; lba_h = 0; dev = 0 };
  polls = 0;
  slept = 0;
}

-- A disk with a chain of two tables, at the sectors 100 and 150.
abbrev chained : Disk
chained a =
    if a == 100 * 512 + 450 || a == 150 * 512 + 450
    then 0x83
    else if a == 100 * 512 + 466
    then 5
    else if a == 100 * 512 + 470
    then 50
    else 0

abbrev none_found : PartScan
none_found = record {
  ext_lba_base = 100;
  p_no = 1;
  l_no = 0;
  prim_parts = replicate 4 no_part;
  logic_parts = replicate 8 no_part;
  partition_list = [];
}

chained-Chain : Chain chained 100 100 (150 ∷ [])
unfolding table_entry
chained-Chain = omega arith

-- A first sector whose entries are all in use.
abbrev filled : Disk
filled a = if ltb a 512 then 0x83 else 0

filled-IsUsed : (i : ℕ) → i < 4 → IsUsed (table_entry filled 0 i)
unfolding table_entry
filled-IsUsed zero h = omega arith
filled-IsUsed (suc zero) h = omega arith
filled-IsUsed (suc (suc zero)) h = omega arith
filled-IsUsed (suc (suc (suc zero))) h = omega arith
filled-IsUsed (suc (suc (suc (suc i)))) h = absurd (omega arith)

swapped : swap_pairs_bytes (1 ∷ 2 ∷ 3 ∷ 4 ∷ []) ≡ 2 ∷ 1 ∷ 4 ∷ 3 ∷ []
unfolding swap_pairs_bytes
swapped = refl

ide_read_lem_example :
    (ch' : IdeChannel) × (ide_read ready_drive chained 1 5 300 primary_channel
      ≡ ok (ch', Inode.ide_read chained 5 300))
ide_read_lem_example =
    ide_read_lem ready_drive ready_drive-AnswersInTime ready_drive-MovesSectors 1 chained 5 300
      primary_channel (refl, refl) (omega arith) (omega arith)

ide_write_lem_example :
    (ch' : IdeChannel) × (ide_write ready_drive chained 1 5 (replicate 1024 7) 2 primary_channel
      ≡ ok (ch', Inode.ide_write chained 5 (replicate 1024 7)))
ide_write_lem_example =
    ide_write_lem ready_drive ready_drive-AnswersInTime ready_drive-MovesSectors 1 5 2
      (replicate 1024 7) chained primary_channel (refl, refl) (omega arith) (omega arith)
      (length-replicate {A = ℕ} 1024 7)

partition_scan-Chain_example :
    (s' : PartScan) × (partition_scan 2 chained 100 none_found ≡ ok s')
    × (s'.partition_list ≡ chain_parts chained 0 100 (150 ∷ []))
    × (s'.l_no ≡ 2)
    × (s'.p_no ≡ 1)
partition_scan-Chain_example =
    partition_scan-Chain chained (150 ∷ []) 100 none_found (omega arith) chained-Chain (omega arith)

partition_scan_four_example :
    partition_scan 1 filled 0 (record none_found { p_no = 0; ext_lba_base = 0 }) ≡ panic
partition_scan_four_example =
    partition_scan_four filled 0 (record none_found { p_no = 0; ext_lba_base = 0 }) refl
      filled-IsUsed
