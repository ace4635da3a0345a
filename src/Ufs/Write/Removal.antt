-- ===== src/Ufs/Write/Removal.antt =====
-- write.rs: a record taken out of a directory block, or pointed at another inode.
use ufs_fuse.Base.{
  ℕ, ◌+◌, ◌/◌, ◌%◌, ◌^◌, not, ◌&&◌, ◌||◌, Option, none, some, List, [], ◌∷◌, Result, ok, panic,
  ◌>>=◌, map_ok, ltb, ◌==◌, if◌then◌else◌,
}
use ufs_fuse.Core.Image.{Buf, write_at}
use ufs_fuse.Core.Codec.{put_u16, put_u32}
use ufs_fuse.Core.Consts.{ufs_dirblksiz, ufs_dirent_reclen_offset}
use ufs_fuse.Ufs.Dir.{DirEntry, iter_directory_records, same_bytes}
use ufs_fuse.Ufs.Write.Fields.{as_u32}
use ufs_fuse.Ufs.Write.Entries.{String, encode_entry}

-- `a + b` of two `u16`
unfoldable pub add_u16 : ℕ → ℕ → Result ℕ
add_u16 a b = if ltb (a + b) (2 ^ 16) then ok (a + b) else panic

-- The record is joined to the one before it in its directory block, or else emptied.
unfoldable pub remove_record : Buf → Option DirEntry → DirEntry → Result Buf
remove_record updated previous rec =
    let emptied = do empty ← encode_entry 0 [] rec.record_length; write_at updated rec.offset empty
    in elim previous [
      | none ↦ emptied
      | some prev ↦
          let merge = do
            merged ← add_u16 prev.record_length rec.record_length
            put_u16 updated (prev.offset + ufs_dirent_reclen_offset) merged
          in if prev.offset / ufs_dirblksiz == rec.offset / ufs_dirblksiz then merge else emptied
    ]

unfoldable pub remove_loop : Buf → String → Option DirEntry → List DirEntry → Result (Option Buf)
remove_loop block name previous [] = ok none
remove_loop block name previous (rec ∷ rest) =
    let previous' : Option DirEntry = if rec.offset % ufs_dirblksiz == 0 then none else some rec in
    let next = remove_loop block name previous' rest in
    if not (same_bytes rec.name name) || (rec.inode == 0)
    then next
    else map_ok (λ b. some b) (remove_record block previous rec)

unfoldable pub remove_entry : Buf → ℕ → String → Result (Option Buf)
remove_entry block size name = do
  records ← iter_directory_records block size
  remove_loop block name none records

unfoldable pub rewrite_loop : Buf → String → ℕ → List DirEntry → Result (Option Buf)
rewrite_loop block name inode_number [] = ok none
rewrite_loop block name inode_number (rec ∷ rest) =
    let next = rewrite_loop block name inode_number rest in
    if not (rec.inode == 0) && same_bytes rec.name name
    then map_ok (λ b. some b) (put_u32 block rec.offset (as_u32 inode_number))
    else next

unfoldable pub rewrite_entry_inode : Buf → ℕ → String → ℕ → Result (Option Buf)
rewrite_entry_inode block size name inode_number = do
  records ← iter_directory_records block size
  rewrite_loop block name inode_number records
