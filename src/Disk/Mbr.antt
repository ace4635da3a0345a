-- ===== src/Disk/Mbr.antt =====
-- crates/svr4-disk/src/mbr.rs: the partition table of the master boot record.
use ufs_fuse.Base.{
  ℕ, zero, suc, ◌+◌, ◌*◌, List, [], ◌∷◌, Result, ok, check, ◌>>=◌, ◌>>◌, ◌==◌, bit_and, bit_or,
}
use ufs_fuse.Core.Image.{Buf, get, slice}
use ufs_fuse.Core.Codec.{u16, u32}
use ufs_fuse.Core.Consts.{sector_size}
use ufs_fuse.Disk.Structures.{Chs, PartitionEntry, MbrInfo}

-- `(raw[1] & 0xC0) << 2` is below 2 ^ 16.
unfoldable pub decode_chs : Buf → Result Chs
decode_chs raw = do
  head ← get raw 0
  b1 ← get raw 1
  b2 ← get raw 2
  ok (record { cylinder = bit_or (bit_and b1 0xC0 * 4) b2; head = head; sector = bit_and b1 0x3F })

unfoldable pub parse_partition_entry : ℕ → Buf → Result PartitionEntry
parse_partition_entry index raw = do
  check (raw.size == 16)
  flag ← get raw 0
  start_raw ← slice raw 1 4
  start_chs ← decode_chs start_raw
  partition_type ← get raw 4
  end_raw ← slice raw 5 8
  end_chs ← decode_chs end_raw
  start_lba ← u32 raw 8
  sector_count ← u32 raw 12
  ok (record {
    index = index;
    bootable = flag == 0x80;
    partition_type = partition_type;
    start_lba = start_lba;
    sector_count = sector_count;
    start_chs = start_chs;
    end_chs = end_chs;
  })

-- The entries from `index` on, `n` of them.
unfoldable pub parse_partitions : Buf → ℕ → ℕ → Result (List PartitionEntry)
parse_partitions sector zero index = ok []
parse_partitions sector (suc n) index = do
  raw ← slice sector (446 + index * 16) (446 + index * 16 + 16)
  entry ← parse_partition_entry (index + 1) raw
  rest ← parse_partitions sector n (index + 1)
  ok (entry ∷ rest)

unfoldable pub parse_mbr_sector : Buf → Result MbrInfo
parse_mbr_sector sector = do
  check (sector.size == sector_size)
  partitions ← parse_partitions sector 4 0
  signature ← u16 sector 510
  ok (record { signature = signature; partitions = partitions })
