-- ===== src/Ufs/Write/Directory.antt =====
-- write.rs: entries added to a directory and removed from it, in the blocks of its inode.
use ufs_fuse.Base.{
  ℕ, zero, suc, ◌+◌, ◌-◌, ◌*◌, Bool, true, false, ◌&&◌, ◌||◌, Option, none, some, List, [], ◌∷◌,
  min, Error, Result, done, failed, map_ok, missing_entry, missing_dotdot, ltb, ◌==◌, if◌then◌else◌,
}
use ufs_fuse.Core.Image.{Buf, slice}
use ufs_fuse.Core.Consts.{ufs_dirblksiz}
use ufs_fuse.Ufs.Superblock.{Ufs}
use ufs_fuse.Ufs.Bitmap.{div_ceil}
use ufs_fuse.Ufs.Inode.{Inode, inode_data_blocks}
use ufs_fuse.Ufs.Dir.{DirEntry, same_bytes}
use ufs_fuse.Ufs.Reader.{read_inode_bytes, read_inode_range, iter_inode_directory_records}
use ufs_fuse.Ufs.Write.Monad.{W, give, fail, reads, computes, replies, writes, ◌>>=◌, ◌>>◌}
use ufs_fuse.Ufs.Write.Contents.{apply_inode_write}
use ufs_fuse.Ufs.Write.Ranges.{write_directory_bytes, differs}
use ufs_fuse.Ufs.Write.Entries.{String, insert_entry}
use ufs_fuse.Ufs.Write.Removal.{remove_entry, rewrite_entry_inode}

-- The fast path of `add_directory_entry`, and whether it was taken: the last block has room. The name is
-- tried there only if the directory has more than one block.
unfoldable pub append_to_last_block :
    Ufs → Inode → String → (child_inode_number last_off span : ℕ) → W Bool
append_to_last_block ufs directory_inode entry_name child_inode_number last_off span = do
  last_block ← reads (λ image. read_inode_range image ufs directory_inode last_off span)
  inserted ← computes (insert_entry last_block span child_inode_number entry_name)
  elim inserted [
    | failed e ↦ give false
    | done updated ↦
        let write = (do
          data_blocks ← reads (λ image. inode_data_blocks image ufs directory_inode)
          writes (write_directory_bytes ufs data_blocks last_off updated)
          give true) in
        if updated.size == span then write else give false
  ]

unfoldable pub fast_append : Ufs → Inode → String → ℕ → W Bool
fast_append ufs directory_inode entry_name child_inode_number =
    let rounded = div_ceil directory_inode.size ufs_dirblksiz * ufs_dirblksiz in
    let last_off = rounded - ufs_dirblksiz in
    let span = min (directory_inode.size - last_off) ufs_dirblksiz in
    if ltb ufs_dirblksiz rounded && ltb 0 span
    then append_to_last_block ufs directory_inode entry_name child_inode_number last_off span
    else give false

-- `while offset < size`, with `n` rounds left: the directory blocks that changed are written.
unfoldable pub write_changed :
    Ufs → (data_blocks : List ℕ) → (size : ℕ) → Buf → Buf → (n offset : ℕ) → W (Unit {0})
write_changed ufs data_blocks size dir_bytes updated zero offset = give tt
write_changed ufs data_blocks size dir_bytes updated (suc n) offset = do
  let end = min (offset + ufs_dirblksiz) size
  changed ← computes (differs dir_bytes updated offset end)
  let write = (do
    block ← computes (slice updated offset end)
    writes (write_directory_bytes ufs data_blocks offset block))
  if changed then write else give tt
  write_changed ufs data_blocks size dir_bytes updated n (offset + ufs_dirblksiz)

unfoldable pub general_insert :
    Ufs → (directory_inode_number : ℕ) → Inode → String → ℕ → W (Unit {0})
general_insert ufs directory_inode_number directory_inode entry_name child_inode_number = do
  let size = directory_inode.size
  dir_bytes ← reads (λ image. read_inode_bytes image ufs directory_inode)
  updated ← replies (insert_entry dir_bytes size child_inode_number entry_name)
  let in_place = (do
    data_blocks ← reads (λ image. inode_data_blocks image ufs directory_inode)
    write_changed ufs data_blocks size dir_bytes updated (div_ceil size ufs_dirblksiz) 0)
  let grow = (do
    tail ← computes (slice updated size updated.size)
    apply_inode_write ufs directory_inode_number size tail)
  if updated.size == size then in_place else grow

unfoldable pub add_directory_entry : Ufs → ℕ → Inode → String → ℕ → W (Unit {0})
add_directory_entry ufs directory_inode_number directory_inode entry_name child_inode_number = do
  added ← fast_append ufs directory_inode entry_name child_inode_number
  if added
      then give tt
      else general_insert ufs directory_inode_number directory_inode entry_name child_inode_number

-- `while block_offset < size`, with `n` rounds left: the first block that `edit` changes is written.
unfoldable pub edit_first_block :
    Error
    → (Buf → ℕ → Result (Option Buf))
    → Ufs
    → (data_blocks : List ℕ) → Buf
    → (size n block_offset : ℕ) → W (Unit {0})
edit_first_block e edit ufs data_blocks dir_bytes size zero block_offset = fail e
edit_first_block e edit ufs data_blocks dir_bytes size (suc n) block_offset = do
  let block_span = min ufs_dirblksiz (size - block_offset)
  block ← computes (slice dir_bytes block_offset (block_offset + block_span))
  edited ← computes (edit block block_span)
  elim edited [
    | some updated ↦ writes (write_directory_bytes ufs data_blocks block_offset updated)
    | none ↦ edit_first_block e edit ufs data_blocks dir_bytes size n (block_offset + ufs_dirblksiz)
  ]

unfoldable pub edit_directory : Error → (Buf → ℕ → Result (Option Buf)) → Ufs → Inode → W (Unit {0})
edit_directory e edit ufs directory_inode = do
  dir_bytes ← reads (λ image. read_inode_bytes image ufs directory_inode)
  data_blocks ← reads (λ image. inode_data_blocks image ufs directory_inode)
  let size = directory_inode.size
  edit_first_block e edit ufs data_blocks dir_bytes size (div_ceil size ufs_dirblksiz) 0

unfoldable pub delete_directory_entry : Ufs → Inode → String → W (Unit {0})
delete_directory_entry ufs directory_inode entry_name =
    edit_directory missing_entry (λ block span. remove_entry block span entry_name) ufs
      directory_inode

unfoldable pub update_directory_dotdot : Ufs → Inode → (new_parent_number : ℕ) → W (Unit {0})
update_directory_dotdot ufs dir_inode new_parent_number =
    edit_directory missing_dotdot
      (λ block span. rewrite_entry_inode block span (46 ∷ 46 ∷ []) new_parent_number) ufs dir_inode

-- No record but `.` and `..` is in use.
unfoldable pub only_dots : List DirEntry → Bool
only_dots [] = true
only_dots (r ∷ rs) =
    ((r.inode == 0) || (same_bytes r.name (46 ∷ []) || same_bytes r.name (46 ∷ 46 ∷ [])))
    && only_dots rs

unfoldable pub directory_is_empty : Buf → Ufs → Inode → Result Bool
directory_is_empty image ufs inode = map_ok only_dots (iter_inode_directory_records image ufs inode)
