-- ===== src/Ufs/Reader.antt =====
-- crates/svr4-ufs/src/reader.rs: reading files, listing directories and resolving paths. A name or a
-- path is the list of its bytes.
pub mod Range
use ufs_fuse.Base.{
  ℕ, zero, suc, ◌+◌, ◌-◌, ◌*◌, ◌/◌, ◌%◌, Bool, true, false, not, ◌||◌, ◌&&◌, Option, none, some,
  List, [], ◌∷◌, ◌++◌, map, length, get_elem?, min, Result, ok, ◌>>=◌, map_ok, ltb, leb, ◌==◌,
  if◌then◌else◌,
}
use ufs_fuse.Core.Image.{Buf, zeroed, slice}
use ufs_fuse.Core.Consts.{ufs_dirblksiz, ufs_root_inode}
use ufs_fuse.Ufs.Superblock.{Ufs, data_block_offset}
use ufs_fuse.Ufs.Bitmap.{div_ceil}
use ufs_fuse.Ufs.Inode.{Inode, read_inode, inode_data_blocks}
use ufs_fuse.Ufs.Dir.{DirEntry, iter_directory_records, list_from, decode_ascii_replace, scan_block}

-- `data.extend_from_slice(more)`
unfoldable pub extend : Buf → Buf → Buf
extend acc more = record {
  size = acc.size + more.size;
  byte = λ a. if ltb a acc.size then acc.byte a else more.byte (a - acc.size);
}

-- The loop over the blocks, the first of which has the index `i`.
unfoldable pub range_loop :
    Buf → Ufs → (offset end_offset start_block end_block : ℕ) → List ℕ → ℕ → Buf → Result Buf
range_loop image ufs offset end_offset start_block end_block [] i acc = ok acc
range_loop image ufs offset end_offset start_block end_block (fs_block ∷ rest) i acc =
    let block_size = ufs.sb.bsize in
    let inner_start = offset - i * block_size in
    let inner_end = min block_size (end_offset - i * block_size) in
    let skip = range_loop image ufs offset end_offset start_block end_block rest (i + 1) acc in
    let read = do
      block_offset ← data_block_offset ufs.sb ufs.start_offset fs_block
      more ← slice image (block_offset + inner_start) (block_offset + inner_end)
      range_loop image ufs offset end_offset start_block end_block rest (i + 1) (extend acc more)
    in if leb start_block i && ltb i end_block && ltb inner_start inner_end then read else skip

-- The allocation of `size` bytes, and `offset + size` in a `usize`, are taken to succeed.
unfoldable pub read_data_range : Buf → Ufs → List ℕ → ℕ → ℕ → Result Buf
read_data_range image ufs data_blocks offset size =
    let end_offset = offset + size in
    let start_block = offset / ufs.sb.bsize in
    let end_block = min (length data_blocks) (div_ceil end_offset ufs.sb.bsize) in
    if size == 0
    then ok (zeroed 0)
    else range_loop image ufs offset end_offset start_block end_block data_blocks 0 (zeroed 0)

unfoldable pub read_inode_bytes : Buf → Ufs → Inode → Result Buf
read_inode_bytes image ufs inode =
    let read = do
      blocks ← inode_data_blocks image ufs inode
      read_data_range image ufs blocks 0 inode.size
    in if inode.size == 0 then ok (zeroed 0) else read

unfoldable pub read_inode_range : Buf → Ufs → Inode → ℕ → ℕ → Result Buf
read_inode_range image ufs inode offset size =
    let clamped_size = min size (inode.size - offset) in
    let read = do
      blocks ← inode_data_blocks image ufs inode
      read_data_range image ufs blocks offset clamped_size
    in if (size == 0) || leb inode.size offset
      then ok (zeroed 0)
      else if clamped_size == 0
      then ok (zeroed 0)
      else read

unfoldable pub shift_record : ℕ → DirEntry → DirEntry
shift_record block_offset r = record r { offset = r.offset + block_offset }

-- The loop over the blocks of a directory, on fuel.
unfoldable pub inode_records_loop : Buf → ℕ → ℕ → ℕ → Result (List DirEntry)
inode_records_loop directory_bytes size zero block_offset = ok []
inode_records_loop directory_bytes size (suc fuel) block_offset =
    let block_span = min ufs_dirblksiz (size - block_offset) in
    let step = do
      block_bytes ←
          slice directory_bytes block_offset (min (block_offset + block_span) directory_bytes.size)
      records ← iter_directory_records block_bytes block_span
      rest ← inode_records_loop directory_bytes size fuel (block_offset + ufs_dirblksiz)
      ok (map (shift_record block_offset) records ++ rest)
    in if ltb block_offset size then step else ok []

-- A round moves on by 512 bytes, so `size` rounds are enough.
unfoldable pub iter_inode_directory_records : Buf → Ufs → Inode → Result (List DirEntry)
iter_inode_directory_records image ufs inode = do
  directory_bytes ← read_inode_bytes image ufs inode
  inode_records_loop directory_bytes inode.size inode.size 0

pub record DirListEntry : Type 0 where
  pub name : List ℕ
  pub inode : ℕ
  pub size : Option ℕ

unfoldable pub list_entries : Buf → Ufs → List DirEntry → Result (List DirListEntry)
list_entries image ufs [] = ok []
list_entries image ufs (r ∷ rs) = do
  rest ← list_entries image ufs rs
  let entry : Result (List DirListEntry) = do
    child ← read_inode image ufs r.inode
    let size : Option ℕ = elim child [ none ↦ none | some inode ↦ some inode.size ]
    let e : DirListEntry = record { name = r.name; inode = r.inode; size = size }
    ok (e ∷ rest)
  if not (r.inode == 0) && (ltb 0 r.name_length && leb r.name_length 255) then entry else ok rest

-- The order of strings.
unfoldable pub name_le : List ℕ → List ℕ → Bool
name_le [] ys = true
name_le (x ∷ xs) [] = false
name_le (x ∷ xs) (y ∷ ys) = ltb x y || ((x == y) && name_le xs ys)

-- A stable sort, as `sort_by` is.
unfoldable pub insert_entry : DirListEntry → List DirListEntry → List DirListEntry
insert_entry e [] = e ∷ []
insert_entry e (f ∷ fs) = if name_le e.name f.name then e ∷ f ∷ fs else f ∷ insert_entry e fs

unfoldable pub sort_entries : List DirListEntry → List DirListEntry
sort_entries [] = []
sort_entries (e ∷ es) = insert_entry e (sort_entries es)

unfoldable pub iter_directory_entries : Buf → Ufs → Inode → Result (List DirListEntry)
iter_directory_entries image ufs inode = do
  records ← iter_inode_directory_records image ufs inode
  entries ← list_entries image ufs records
  ok (sort_entries entries)

unfoldable pub list_root : Buf → Ufs → Result (List DirListEntry)
list_root image ufs = do
  root? ← read_inode image ufs ufs_root_inode
  elim root? [ none ↦ ok [] | some root ↦ iter_directory_entries image ufs root ]

-- The outer loop of `lookup_directory_entry`, on fuel. A name that is found ends it, also where its
-- inode cannot be read.
unfoldable pub lookup_loop : Buf → Ufs → List ℕ → List ℕ → ℕ → ℕ → ℕ → Result (Option (ℕ × Inode))
lookup_loop image ufs data_blocks name directory_size zero block_offset = ok none
lookup_loop image ufs data_blocks name directory_size (suc fuel) block_offset =
    let block_size = ufs.sb.bsize in
    let span = min ufs_dirblksiz (directory_size - block_offset) in
    let next =
      lookup_loop image ufs data_blocks name directory_size fuel (block_offset + ufs_dirblksiz) in
    let step : Result (Option (ℕ × Inode)) =
      elim (get_elem? data_blocks (block_offset / block_size)) [
        | none ↦ ok none
        | some fs_block ↦ do
          start ← data_block_offset ufs.sb ufs.start_offset fs_block
          let backing = start + block_offset % block_size
          block ← slice image backing (backing + span)
          found ← scan_block block name span
          elim found [
            | none ↦ next
            | some inode ↦ do
              child ← read_inode image ufs inode
              ok (elim child [ none ↦ none | some c ↦ some (inode, c) ])
          ]
      ] in
    if ltb block_offset directory_size then step else ok none

unfoldable pub lookup_directory_entry : Buf → Ufs → Inode → List ℕ → Result (Option (ℕ × Inode))
lookup_directory_entry image ufs directory_inode name =
    let look = do
      data_blocks ← inode_data_blocks image ufs directory_inode
      lookup_loop image ufs data_blocks name directory_inode.size directory_inode.size 0
    in if directory_inode.size == 0 then ok none else look

-- `path.split('/').filter(|p| !p.is_empty())`, with the part that was begun.
-- A part is kept unless it is empty.
unfoldable pub keep_part : List ℕ → List (List ℕ) → List (List ℕ)
keep_part [] rest = rest
keep_part (c ∷ cs) rest = (c ∷ cs) ∷ rest

unfoldable pub path_parts : List ℕ → List ℕ → List (List ℕ)
path_parts begun [] = keep_part begun []
path_parts begun (c ∷ path) =
    let rest = path_parts [] path in
    let more = path_parts (begun ++ c ∷ []) path in if c == 47 then keep_part begun rest else more

unfoldable pub resolve_loop : Buf → Ufs → List (List ℕ) → ℕ → Inode → Result (Option (ℕ × Inode))
resolve_loop image ufs [] current_number current = ok (some (current_number, current))
resolve_loop image ufs (part ∷ parts) current_number current = do
  found ← lookup_directory_entry image ufs current part
  elim found [ none ↦ ok none | some next ↦ resolve_loop image ufs parts next.0 next.1 ]

unfoldable pub resolve_path : Buf → Ufs → List ℕ → Result (Option (ℕ × Inode))
resolve_path image ufs path = do
  root? ← read_inode image ufs ufs_root_inode
  elim root? [
    | none ↦ ok none
    | some root ↦ resolve_loop image ufs (path_parts [] path) ufs_root_inode root
  ]

unfoldable pub read_symlink_target : Buf → Ufs → Inode → Result (List ℕ)
read_symlink_target image ufs inode = do
  bytes ← read_inode_bytes image ufs inode
  ok (decode_ascii_replace (list_from bytes.byte bytes.size 0))
