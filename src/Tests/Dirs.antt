-- ===== src/Tests/Dirs.antt =====
-- A directory block of 512 bytes with the records `.` and `..`, as mkfs writes it.
use ufs_fuse.Base.{
  ℕ, ◌+◌, ◌-◌, ◌*◌, ◌<◌, ◌≡◌, refl, ok, ◌==◌, if◌then◌else◌, some, List, [], ◌∷◌, min, arith,
}
use ufs_fuse.Core.Image.{Buf, get, slice}
use ufs_fuse.Core.Codec.{u16, u32}
use ufs_fuse.Ufs.Superblock.{data_block_offset, fsbtobytes, shl, i64}
use ufs_fuse.Ufs.Dir.{
  DirEntry, iter_directory_records, records_loop, decode_directory_entry, decode_directory_header,
  check_header, name_bytes, list_from, decode_ascii_replace, ascii_or_replacement, scan_block,
  scan_loop, same_bytes,
}
use ufs_fuse.Ufs.Dir.Records.{Chain, iter_directory_records_lem}
use ufs_fuse.Ufs.Dir.Scan.{find_name, scan_block-find_name}
use ufs_fuse.Ufs.Reader.{read_data_range}
use ufs_fuse.Ufs.Reader.Range.{Located, file_byte, read_data_range_lem}
use ufs_fuse.Tests.Disk.{mini, disk}

unfoldable pub dir_byte : ℕ → ℕ
dir_byte a =
    if a == 0
    then 2
    else if a == 4
    then 12
    else if a == 6
    then 1
    else if a == 8
    then 46
    else if a == 12
    then 2
    else if a == 16
    then 244
    else if a == 17
    then 1
    else if a == 18
    then 2
    else if a == 20
    then 46
    else if a == 21
    then 46
    else 0

abbrev pub dir_block : Buf
dir_block = record { size = 512; byte = dir_byte }

two_records :
    iter_directory_records dir_block 512
    ≡ ok (
        record { inode = 2; record_length = 12; name_length = 1; name = 46 ∷ []; offset = 0 }
        ∷ record {
          inode = 2;
          record_length = 500;
          name_length = 2;
          name = 46 ∷ 46 ∷ [];
          offset = 12;
        }
        ∷ [])
unfolding iter_directory_records records_loop decode_directory_entry decode_directory_header
    check_header name_bytes list_from decode_ascii_replace ascii_or_replacement u16 u32 get slice
    dir_byte
two_records = refl

found_dot_dot : scan_block dir_block (46 ∷ 46 ∷ []) 512 ≡ ok (some 2)
unfolding scan_block scan_loop same_bytes decode_directory_header check_header name_bytes list_from
    u16 u32 get slice dir_byte
found_dot_dot = refl

iter_directory_records_lem_example :
    (rs : List DirEntry) × (iter_directory_records dir_block 512 ≡ ok rs)
    × Chain dir_block (min dir_block.size 512) (omega arith) 0 rs
iter_directory_records_lem_example = iter_directory_records_lem dir_block 512

scan_block-find_name_example :
    (rs : List DirEntry) × (iter_directory_records dir_block 512 ≡ ok rs)
    × (scan_block dir_block (46 ∷ 46 ∷ []) 512 ≡ ok (find_name (46 ∷ 46 ∷ []) rs))
scan_block-find_name_example =
    scan_block-find_name dir_block 512 (46 ∷ 46 ∷ []) (omega arith) (omega arith, (omega arith, tt))

-- The blocks at the fragments 24 and 40 of the small disk.
abbrev places : ℕ → ℕ
places i = 24576 + i * 16384

blocks-Located : Located disk mini places 0 (24 ∷ 40 ∷ [])
unfolding data_block_offset fsbtobytes shl i64
blocks-Located = (refl, omega arith, (refl, omega arith, tt))

-- 200 bytes from 4000 on, over the end of the first block.
read_data_range_lem_example :
    (out : Buf) × (read_data_range disk mini (24 ∷ 40 ∷ []) 4000 200 ≡ ok out)
    × (out.size ≡ min 200 (2 * 4096 - 4000))
    × ((j : ℕ) → j < out.size → out.byte j ≡ file_byte disk mini places (4000 + j))
read_data_range_lem_example =
    read_data_range_lem disk mini places (24 ∷ 40 ∷ []) 4000 200 (omega arith) blocks-Located

-- A record of 12 bytes whose name has 200 is decoded in a block of 512.
unfoldable long_byte : ℕ → ℕ
long_byte a = if a == 0 then 7 else if a == 4 then 12 else if a == 6 then 200 else 0

long_name_accepted :
    decode_directory_header (record { size = 512; byte = long_byte }) 0 512
    ≡ ok (some (record { inode = 7; record_length = 12; name_length = 200 }))
unfolding decode_directory_header check_header u16 u32 get slice long_byte
long_name_accepted = refl
