-- ===== src/Ufs/Dir.antt =====
-- crates/svr4-ufs/src/dir.rs: directory records, and the scan of a directory block by
-- `lookup_directory_entry` of reader.rs. A name is the list of its bytes, and decoded the list of its
-- characters.
pub mod Records
pub mod Scan
pub mod Tidy
use ufs_fuse.Base.{
  ℕ, zero, suc, ◌+◌, Bool, true, false, not, ◌||◌, ◌&&◌, Option, none, some, List, [], ◌∷◌, map,
  length, min, Result, ok, ◌>>=◌, ltb, leb, ◌==◌, if◌then◌else◌,
}
use ufs_fuse.Core.Image.{Buf, slice}
use ufs_fuse.Core.Codec.{u16, u32}
use ufs_fuse.Core.Consts.{
  ufs_dirent_header_size, ufs_dirent_namlen_offset, ufs_dirent_name_offset,
  ufs_dirent_reclen_offset,
}

pub record DirEntryHeader : Type 0 where
  pub inode : ℕ
  pub record_length : ℕ
  pub name_length : ℕ

pub record DirEntry : Type 0 where
  pub inode : ℕ
  pub record_length : ℕ
  pub name_length : ℕ
  pub name : List ℕ
  pub offset : ℕ

-- The checks on a header that was read.
unfoldable pub check_header : ℕ → ℕ → (inode record_length name_length : ℕ) → Option DirEntryHeader
check_header offset max_length inode record_length name_length =
    if (record_length == 0) || ltb max_length (offset + record_length)
    then none
    else if ltb 255 name_length || ltb max_length (offset + ufs_dirent_name_offset + name_length)
    then none
    else some (record { inode = inode; record_length = record_length; name_length = name_length })

unfoldable pub decode_directory_header : Buf → ℕ → ℕ → Result (Option DirEntryHeader)
decode_directory_header bytes offset max_length =
    let read = do
      inode ← u32 bytes offset
      record_length ← u16 bytes (offset + ufs_dirent_reclen_offset)
      name_length ← u16 bytes (offset + ufs_dirent_namlen_offset)
      ok (check_header offset max_length inode record_length name_length)
    in if ltb max_length (offset + ufs_dirent_header_size) then ok none else read

-- The `n` bytes from `a` on.
unfoldable pub list_from : (ℕ → ℕ) → ℕ → ℕ → List ℕ
list_from f zero a = []
list_from f (suc n) a = f a ∷ list_from f n (a + 1)

-- The elements of `bytes[start..start + n]`
unfoldable pub name_bytes : Buf → ℕ → ℕ → Result (List ℕ)
name_bytes bytes start n = do
  raw ← slice bytes start (start + n)
  ok (list_from raw.byte raw.size 0)

unfoldable pub ascii_or_replacement : ℕ → ℕ
ascii_or_replacement b = if ltb b 0x80 then b else 0xFFFD

unfoldable pub decode_ascii_replace : List ℕ → List ℕ
decode_ascii_replace raw = map ascii_or_replacement raw

unfoldable pub decode_directory_entry : Buf → ℕ → ℕ → Result (Option DirEntry)
decode_directory_entry bytes offset max_length = do
  header? ← decode_directory_header bytes offset max_length
  elim header? [
    | none ↦ ok none
    | some header ↦ do
      raw ← name_bytes bytes (offset + ufs_dirent_name_offset) header.name_length
      ok (
          some (record {
            inode = header.inode;
            record_length = header.record_length;
            name_length = header.name_length;
            name = decode_ascii_replace raw;
            offset = offset;
          }))
  ]

-- The loop of `iter_directory_records`, on fuel.
unfoldable pub records_loop : Buf → ℕ → ℕ → ℕ → Result (List DirEntry)
records_loop bytes max_length zero offset = ok []
records_loop bytes max_length (suc fuel) offset =
    let step = do
      entry? ← decode_directory_entry bytes offset max_length
      elim entry? [
        | none ↦ ok []
        | some entry ↦ do
          rest ← records_loop bytes max_length fuel (offset + entry.record_length)
          ok (entry ∷ rest)
      ]
    in if leb (offset + ufs_dirent_header_size) max_length then step else ok []

-- A record takes at least one byte, so as many rounds as there are bytes are enough.
unfoldable pub iter_directory_records : Buf → ℕ → Result (List DirEntry)
iter_directory_records bytes size = records_loop bytes (min bytes.size size) (min bytes.size size) 0

-- Equality of two byte strings.
unfoldable pub same_bytes : List ℕ → List ℕ → Bool
same_bytes [] [] = true
same_bytes [] (y ∷ ys) = false
same_bytes (x ∷ xs) [] = false
same_bytes (x ∷ xs) (y ∷ ys) = (x == y) && same_bytes xs ys

-- The inner loop of `lookup_directory_entry`, on fuel: the inode number of the first record in use that
-- has the name.
unfoldable pub scan_loop : Buf → List ℕ → ℕ → ℕ → ℕ → Result (Option ℕ)
scan_loop block name span zero cursor = ok none
scan_loop block name span (suc fuel) cursor =
    let step = do
      header? ← decode_directory_header block cursor span
      elim header? [
        | none ↦ ok none
        | some header ↦
            let next = scan_loop block name span fuel (cursor + header.record_length) in
            let compare = do
              raw ← name_bytes block (cursor + ufs_dirent_name_offset) (length name)
              if same_bytes raw name then ok (some header.inode) else next
            in if not (header.inode == 0) && (header.name_length == length name)
              then compare
              else next
      ]
    in if leb (cursor + ufs_dirent_header_size) span then step else ok none

unfoldable pub scan_block : Buf → List ℕ → ℕ → Result (Option ℕ)
scan_block block name span = scan_loop block name span span 0
