-- ===== src/Disk/Svr4.antt =====
-- crates/svr4-disk/src/svr4.rs: pdinfo, the volume table of contents, and the alternates tables.
use ufs_fuse.Base.{
  ℕ, zero, suc, ◌+◌, ◌-◌, ◌*◌, ◌/◌, ◌%◌, Bool, false, ◌||◌, ◌&&◌, Option, none, some, List, [], ◌∷◌,
  length, take, Result, ok, check, ◌>>=◌, ◌>>◌, ℤ, pos, negsuc, ltb, leb, ◌==◌, if◌then◌else◌,
}
use ufs_fuse.Core.Image.{Buf, slice}
use ufs_fuse.Core.Codec.{u16, u32, i32}
use ufs_fuse.Ufs.Dir.{name_bytes, decode_ascii_replace}
use ufs_fuse.Disk.Structures.{
  PdInfo, AltTableInfo, AltInfo, VtocPartition, VtocInfo, valid_pd, vtoc_sane,
}

abbrev pub vtoc_partition_count : ℕ
vtoc_partition_count = 16

abbrev pub partition_struct_offset : ℕ
partition_struct_offset = 60

abbrev pub partition_struct_size : ℕ
partition_struct_size = 12

abbrev pub alt_sanity : ℕ
alt_sanity = 0xDEADBEEF

abbrev pub alt_version : ℕ
alt_version = 2

abbrev pub v_backup : ℕ
v_backup = 5

abbrev pub v_other : ℕ
v_other = 7

-- The bytes before the first 0.
unfoldable pub until_zero : List ℕ → List ℕ
until_zero [] = []
until_zero (b ∷ bs) = let rest = b ∷ until_zero bs in if b == 0 then [] else rest

unfoldable pub decode_ascii_field : List ℕ → List ℕ
decode_ascii_field raw = decode_ascii_replace (until_zero raw)

unfoldable pub parse_pdinfo : Buf → Result PdInfo
parse_pdinfo raw = do
  check (leb 98 raw.size)
  drive_id ← u32 raw 0
  sanity ← u32 raw 4
  version ← u32 raw 8
  serial ← name_bytes raw 12 12
  cylinders ← u32 raw 24
  tracks ← u32 raw 28
  sectors ← u32 raw 32
  bytes_per_sector ← u32 raw 36
  logical_sector_0 ← u32 raw 40
  vtoc_ptr ← u32 raw 84
  vtoc_len ← u16 raw 88
  alt_ptr ← u32 raw 92
  alt_len ← u16 raw 96
  ok (record {
    drive_id = drive_id;
    sanity = sanity;
    version = version;
    serial = decode_ascii_field serial;
    cylinders = cylinders;
    tracks = tracks;
    sectors = sectors;
    bytes_per_sector = bytes_per_sector;
    logical_sector_0 = logical_sector_0;
    vtoc_ptr = vtoc_ptr;
    vtoc_len = vtoc_len;
    alt_ptr = alt_ptr;
    alt_len = alt_len;
  })

-- The slices from `index` on, `n` of them.
unfoldable pub parse_vtoc_partitions : Buf → ℕ → ℕ → Result (List VtocPartition)
parse_vtoc_partitions view zero index = ok []
parse_vtoc_partitions view (suc n) index = do
  let base = partition_struct_offset + index * partition_struct_size
  tag ← u16 view base
  flag ← u16 view (base + 2)
  start_sector ← i32 view (base + 4)
  sector_count ← i32 view (base + 8)
  rest ← parse_vtoc_partitions view n (index + 1)
  let entry : VtocPartition = record {
    index = index;
    tag = tag;
    flag = flag;
    start_sector = start_sector;
    sector_count = sector_count;
  }
  ok (entry ∷ rest)

unfoldable pub parse_vtoc : Buf → ℕ → Result VtocInfo
parse_vtoc raw offset = do
  view ← slice raw offset raw.size
  check (leb (partition_struct_offset + vtoc_partition_count * partition_struct_size) view.size)
  partitions ← parse_vtoc_partitions view vtoc_partition_count 0
  sanity ← u32 view 0
  version ← u32 view 4
  volume ← name_bytes view 8 8
  partition_count ← u16 view 16
  ok (record {
    sanity = sanity;
    version = version;
    volume = decode_ascii_field volume;
    partition_count = partition_count;
    partitions = partitions;
  })

-- The signed values from `offset` on, `n` of them.
unfoldable pub read_i32s : Buf → ℕ → ℕ → Result (List ℤ)
read_i32s raw offset zero = ok []
read_i32s raw offset (suc n) = do
  v ← i32 raw offset
  rest ← read_i32s raw (offset + 4) n
  ok (v ∷ rest)

unfoldable pub parse_alt_table : Buf → ℕ → ℕ → Result (AltTableInfo × ℕ)
parse_alt_table raw offset entry_count = do
  let end_offset = offset + 8 + entry_count * 4
  check (leb end_offset raw.size)
  bad_entries ← read_i32s raw (offset + 8) entry_count
  used ← u16 raw offset
  base_sector ← i32 raw (offset + 4)
  let table : AltTableInfo = record {
    used = used;
    reserved = entry_count;
    base_sector = base_sector;
    bad_entries = bad_entries;
  }
  ok (table, end_offset)

unfoldable pub parse_alt_info : Buf → ℕ → Result AltInfo
parse_alt_info raw offset = do
  view ← slice raw offset raw.size
  check (leb 16 view.size)
  sanity ← u32 view 0
  version ← u16 view 4
  track_reserved ← u16 view 10
  (track_table, next_offset) ← parse_alt_table view 8 track_reserved
  check (leb (next_offset + 4) view.size)
  sector_reserved ← u16 view (next_offset + 2)
  (sector_table, _) ← parse_alt_table view next_offset sector_reserved
  ok (record {
    sanity = sanity;
    version = version;
    track_table = track_table;
    sector_table = sector_table;
  })

-- `z + n` and `z == n` of an `i64` `z`
unfoldable pub add_nat : ℤ → ℕ → ℤ
add_nat (pos m) n = pos (m + n)
add_nat (negsuc m) n = if ltb m n then pos (n - m - 1) else negsuc (m - n)

unfoldable pub same_int : ℤ → ℤ → Bool
same_int (pos m) (pos n) = m == n
same_int (pos m) (negsuc n) = false
same_int (negsuc m) (pos n) = false
same_int (negsuc m) (negsuc n) = m == n

-- The index of the first entry that is `value`, counted from `index`.
unfoldable pub find_bad : List ℤ → ℤ → ℕ → Option ℕ
find_bad [] value index = none
find_bad (bad ∷ rest) value index =
    let next = find_bad rest value (index + 1) in if same_int value bad then some index else next

-- The entries in use: `bad_entries[..used]`
unfoldable pub used_entries : AltTableInfo → Result (List ℤ)
used_entries t = do check (leb t.used (length t.bad_entries)); ok (take t.used t.bad_entries)

unfoldable pub remap_track : AltTableInfo → ℕ → ℕ → Result ℤ
remap_track t sectors sector = do
  bad_tracks ← used_entries t
  ok (elim (find_bad bad_tracks (pos (sector / sectors)) 0) [
    | none ↦ pos sector
    | some index ↦ add_nat (add_nat t.base_sector (index * sectors)) (sector % sectors)
  ])

unfoldable pub remap_sector : AltTableInfo → ℤ → Result ℤ
remap_sector t sector = do
  bad_sectors ← used_entries t
  ok (elim (find_bad bad_sectors sector 0) [
    | none ↦ sector
    | some index ↦ add_nat t.base_sector index
  ])

-- A sector number that is asked for is not negative.
unfoldable pub remap_guest_visible_sector : PdInfo → VtocPartition → Option AltInfo → ℕ → Result ℤ
remap_guest_visible_sector pdinfo partition none absolute_sector = ok (pos absolute_sector)
remap_guest_visible_sector pdinfo partition (some alt_info) absolute_sector =
    let remap = do
      check (ltb 0 pdinfo.sectors)
      remapped_sector ← remap_track alt_info.track_table pdinfo.sectors absolute_sector
      remap_sector alt_info.sector_table remapped_sector
    in if (partition.index == 0) || ((partition.tag == v_backup) || (partition.tag == v_other))
      then ok (pos absolute_sector)
      else remap

unfoldable pub is_valid_pdinfo : PdInfo → Bool
is_valid_pdinfo pdinfo = pdinfo.sanity == valid_pd

unfoldable pub is_valid_vtoc : VtocInfo → Bool
is_valid_vtoc vtoc = vtoc.sanity == vtoc_sane

unfoldable pub is_valid_alt_info : AltInfo → Bool
is_valid_alt_info alt_info = (alt_info.sanity == alt_sanity) && (alt_info.version == alt_version)
