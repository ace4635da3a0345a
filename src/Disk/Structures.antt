-- ===== src/Disk/Structures.antt =====
-- crates/svr4-disk/src/structures.rs: what is parsed, without the reports. A text field is the list of
-- its characters, and an `i32` that is kept as `i64` a signed integer.
use ufs_fuse.Base.{ℕ, ℤ, Bool, List}

abbrev pub valid_pd : ℕ
valid_pd = 0xCA5E600D

abbrev pub vtoc_sane : ℕ
vtoc_sane = 0x600DDEEE

-- Cylinder, head and sector.
pub record Chs : Type 0 where
  pub cylinder : ℕ
  pub head : ℕ
  pub sector : ℕ

pub record PartitionEntry : Type 0 where
  pub index : ℕ
  pub bootable : Bool
  pub partition_type : ℕ
  pub start_lba : ℕ
  pub sector_count : ℕ
  pub start_chs : Chs
  pub end_chs : Chs

pub record MbrInfo : Type 0 where
  pub signature : ℕ
  pub partitions : List PartitionEntry

pub record PdInfo : Type 0 where
  pub drive_id : ℕ
  pub sanity : ℕ
  pub version : ℕ
  pub serial : List ℕ
  pub cylinders : ℕ
  pub tracks : ℕ
  pub sectors : ℕ
  pub bytes_per_sector : ℕ
  pub logical_sector_0 : ℕ
  pub vtoc_ptr : ℕ
  pub vtoc_len : ℕ
  pub alt_ptr : ℕ
  pub alt_len : ℕ

pub record AltTableInfo : Type 0 where
  pub used : ℕ
  pub reserved : ℕ
  pub base_sector : ℤ
  pub bad_entries : List ℤ

pub record AltInfo : Type 0 where
  pub sanity : ℕ
  pub version : ℕ
  pub track_table : AltTableInfo
  pub sector_table : AltTableInfo

pub record VtocPartition : Type 0 where
  pub index : ℕ
  pub tag : ℕ
  pub flag : ℕ
  pub start_sector : ℤ
  pub sector_count : ℤ

pub record VtocInfo : Type 0 where
  pub sanity : ℕ
  pub version : ℕ
  pub volume : List ℕ
  pub partition_count : ℕ
  pub partitions : List VtocPartition
