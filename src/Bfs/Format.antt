-- ===== src/Bfs/Format.antt =====
-- crates/svr4-bfs/src/lib.rs: `format`. A file is its name and its data.
use ufs_fuse.Base.{
  ℕ, ◌+◌, ◌-◌, ◌*◌, ◌/◌, max, Bool, true, false, ◌&&◌, ◌||◌, not, Option, none, some, List, [], ◌∷◌,
  length, Result, ok, panic, ◌>>=◌, map_ok, ℤ, ltb, leb, ◌==◌, if◌then◌else◌,
}
use ufs_fuse.Core.Image.{Buf, slice, write_at, fill_zero}
use ufs_fuse.Core.Codec.{put_u16, put_u32}
use ufs_fuse.Core.Consts.{sector_size, bfs_magic}
use ufs_fuse.Ufs.Dir.{same_bytes}
use ufs_fuse.Ufs.Write.Entries.{String, as_bytes, byte_length, buf_of}
use ufs_fuse.Ufs.Write.Fields.{as_u16, as_u32}
use ufs_fuse.Bfs.{
  bfs_root_inode, bfs_super_size, bfs_dirent_size, bfs_ldir_size, bfs_sanityw_offset, bfs_vreg,
  bfs_vdir, bfs_max_name, round_up, put_dirent,
}

-- The errors of `format`, one for each message.
pub data FormatError : Type 0 where
  slice_too_small no_room_for_directory : FormatError
  bad_name name_too_long name_not_ascii duplicate_name no_room_for_file : String → FormatError

pub data Formatted {ℓ} (A : Type ℓ) : Type ℓ where
  formatted : A → Formatted A
  refused : FormatError → Formatted A

-- The list has an element that is equal to the character, or to the string.
unfoldable pub contains_char : ℕ → String → Bool
contains_char c [] = false
contains_char c (d ∷ ds) = (c == d) || contains_char c ds

unfoldable pub contains_name : String → List String → Bool
contains_name name [] = false
contains_name name (n ∷ ns) = same_bytes n name || contains_name name ns

unfoldable pub is_ascii : String → Bool
is_ascii [] = true
is_ascii (c ∷ cs) = ltb c 128 && is_ascii cs

-- The first error that a name has, with the names before it in `seen`.
unfoldable pub name_error : List String → String → Option FormatError
name_error seen name =
    if same_bytes name [] || contains_char 47 name
    then some (bad_name name)
    else if ltb bfs_max_name (byte_length name)
    then some (name_too_long name)
    else if not (is_ascii name)
    then some (name_not_ascii name)
    else if contains_name name seen
    then some (duplicate_name name)
    else none

-- The `return` at the first error.
unfoldable pub first_error : Option FormatError → Option FormatError → Option FormatError
first_error (some e) later = some e
first_error none later = later

unfoldable pub check_names : List String → List (String × Buf) → Option FormatError
check_names seen [] = none
check_names seen (f ∷ files) = first_error (name_error seen f.0) (check_names (f.0 ∷ seen) files)

pub record Layout : Type 0 where
  pub inode : ℕ
  pub name : String
  pub contents : Buf
  pub start : ℕ
  pub end_block : ℕ
  pub end_offset : ℕ

-- `BFS_ROOT_INODE + (index as u16) + 1`
unfoldable pub layout_inode : ℕ → Result ℕ
layout_inode index =
    let inode = bfs_root_inode + as_u16 index + 1 in if leb 0x10000 inode then panic else ok inode

unfoldable pub place : (inode : ℕ) → String × Buf → (current : ℕ) → Layout
place inode f current =
    let allocation = round_up f.1.size sector_size in
    if f.1.size == 0
    then record {
      inode = inode;
      name = f.0;
      contents = f.1;
      start = 0;
      end_block = 0;
      end_offset = 0;
    }
    else record {
      inode = inode;
      name = f.0;
      contents = f.1;
      start = current;
      end_block = as_u32 ((current + allocation) / sector_size - 1);
      end_offset = as_u32 (current + f.1.size - 1);
    }

unfoldable pub prepend : Layout → Formatted (List Layout) → Formatted (List Layout)
prepend l (formatted ls) = formatted (l ∷ ls)
prepend l (refused e) = refused e

-- The loop that lays out the extents, with the files from `index` on. An empty file takes no room: its
-- size rounded up is 0.
unfoldable pub lay_out :
    (size_bytes : ℕ) → List (String × Buf) → (index current : ℕ) → Result (Formatted (List Layout))
lay_out size_bytes [] index current = ok (formatted [])
lay_out size_bytes (f ∷ files) index current = do
  inode ← layout_inode index
  let next = current + round_up f.1.size sector_size
  let rest = lay_out size_bytes files (index + 1) next
  let placed = map_ok (prepend (place inode f current)) rest
  if not (f.1.size == 0) && ltb size_bytes next then ok (refused (no_room_for_file f.0)) else placed

unfoldable pub put_superblock : Buf → (data_start size_bytes : ℕ) → Result Buf
put_superblock image data_start size_bytes = do
  image ← put_u32 image 0 bfs_magic
  image ← put_u32 image 4 (as_u32 data_start)
  image ← put_u32 image 8 (as_u32 (size_bytes - 1))
  image ← put_u32 image bfs_sanityw_offset 0xFFFFFFFF
  image ← put_u32 image (bfs_sanityw_offset + 4) 0xFFFFFFFF
  image ← put_u32 image (bfs_sanityw_offset + 8) 0xFFFFFFFF
  put_u32 image (bfs_sanityw_offset + 12) 0xFFFFFFFF

unfoldable pub put_root :
    Buf → (data_start root_dir_alloc root_dir_bytes : ℕ) → (timestamp : ℤ) → Result Buf
put_root image data_start root_dir_alloc root_dir_bytes timestamp =
    let root_end_offset =
      if root_dir_bytes == 0
      then as_u32 (data_start - 1)
      else as_u32 (data_start + root_dir_bytes - 1) in
    put_dirent image bfs_super_size bfs_root_inode (as_u32 (data_start / sector_size))
      (as_u32 ((data_start + root_dir_alloc) / sector_size - 1)) root_end_offset bfs_vdir 0x1ED 2
      timestamp

-- The data of a file and its inode.
unfoldable pub put_file : Buf → (index : ℕ) → Layout → (timestamp : ℤ) → Result Buf
put_file image index layout timestamp =
    let inode_offset = bfs_super_size + (index + 1) * bfs_dirent_size in
    let empty = put_dirent image inode_offset layout.inode 0 0 0 bfs_vreg 0x1A4 1 timestamp in
    let start_block = as_u32 (layout.start / sector_size) in
    let full = do
      image ← write_at image layout.start layout.contents
      put_dirent image inode_offset layout.inode start_block layout.end_block layout.end_offset
          bfs_vreg 0x1A4 1 timestamp
    in if layout.contents.size == 0 then empty else full

unfoldable pub put_root_entry : Buf → (directory_offset : ℕ) → Layout → Result Buf
put_root_entry image directory_offset layout = do
  image ← put_u16 image directory_offset layout.inode
  let name_bytes = buf_of (as_bytes layout.name)
  image ← write_at image (directory_offset + 2) name_bytes
  fill_zero image (directory_offset + 2 + name_bytes.size) (directory_offset + bfs_ldir_size)

unfoldable pub put_files :
    Buf → List Layout → (index directory_offset : ℕ) → (timestamp : ℤ) → Result Buf
put_files image [] index directory_offset timestamp = ok image
put_files image (layout ∷ layouts) index directory_offset timestamp = do
  image ← put_file image index layout timestamp
  image ← put_root_entry image directory_offset layout
  put_files image layouts (index + 1) (directory_offset + bfs_ldir_size) timestamp

-- Everything that is written, into the slice of `out` at `fs_start`.
unfoldable pub write_all :
    Buf
    → (fs_start size_bytes data_start root_dir_alloc root_dir_bytes : ℕ) → List Layout
    → (timestamp : ℤ) → Result Buf
write_all out fs_start size_bytes data_start root_dir_alloc root_dir_bytes layouts timestamp = do
  image ← slice out fs_start (fs_start + size_bytes)
  image ← fill_zero image 0 size_bytes
  image ← put_superblock image data_start size_bytes
  image ← put_root image data_start root_dir_alloc root_dir_bytes timestamp
  image ← put_files image layouts 0 data_start timestamp
  write_at out fs_start image

abbrev pub table_slots : List (String × Buf) → Option ℕ → ℕ
table_slots files none = max (length files + 1) (max 16 (length files + 1))
table_slots files (some n) = max (length files + 1) n

unfoldable pub format :
    Buf → (fs_start size_bytes : ℕ) → List (String × Buf) → Option ℕ → ℤ → Result (Formatted Buf)
format out fs_start size_bytes files dirent_slots timestamp =
    let data_start =
      round_up (bfs_super_size + table_slots files dirent_slots * bfs_dirent_size) sector_size in
    let root_dir_bytes = length files * bfs_ldir_size in
    let root_dir_alloc = max sector_size (round_up (max root_dir_bytes 1) sector_size) in
    let write = (do
      layouts ← lay_out size_bytes files 0 (data_start + root_dir_alloc)
      elim layouts [
        | refused e ↦ ok (refused e)
        | formatted ls ↦
            map_ok (λ b. formatted b)
              (write_all out fs_start size_bytes data_start root_dir_alloc root_dir_bytes ls
                timestamp)
      ]) in
    if ltb size_bytes (bfs_super_size + sector_size)
    then ok (refused slice_too_small)
    else elim (check_names [] files) [
      | some e ↦ ok (refused e)
      | none ↦
          if ltb size_bytes (data_start + root_dir_alloc)
          then ok (refused no_room_for_directory)
          else write
    ]
