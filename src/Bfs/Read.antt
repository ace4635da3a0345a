-- ===== src/Bfs/Read.antt =====
-- crates/svr4-bfs/src/lib.rs: detecting a boot file system, listing its root directory and reading a file.
use ufs_fuse.Base.{
  ℕ, zero, suc, ◌+◌, ◌-◌, ◌*◌, ◌%◌, ◌&&◌, ◌||◌, Option, none, some, List, [], ◌∷◌, ◌++◌, Result, ok,
  ◌>>=◌, map_ok, ltb, leb, ◌==◌, if◌then◌else◌,
}
use ufs_fuse.Core.Image.{Buf, slice}
use ufs_fuse.Core.Codec.{u16, u32}
use ufs_fuse.Core.Consts.{sector_size, bfs_magic}
use ufs_fuse.Ufs.Dir.{list_from, same_bytes}
use ufs_fuse.Ufs.Write.Entries.{String}
use ufs_fuse.Bfs.{
  Bfs, bfs_root_inode, bfs_super_size, bfs_dirent_size, bfs_ldir_size, bfs_dirent_ino_offset,
  bfs_dirent_sblock_offset, bfs_dirent_eblock_offset, bfs_dirent_eoffset_offset,
  bfs_dirent_vattr_offset, bfs_vattr_type_offset,
}

unfoldable pub detect_at_start : Buf → ℕ → Result (Option Bfs)
detect_at_start image fs_start =
    let fields = do
      data_start ← u32 image (fs_start + 4)
      data_end ← u32 image (fs_start + 8)
      let bfs : Bfs = record {
        start_offset = fs_start;
        data_start = data_start;
        data_end = data_end;
      }
      ok (if ltb data_start bfs_super_size || ltb data_end data_start then none else some bfs)
    in let probe = do magic ← u32 image fs_start; if magic == bfs_magic then fields else ok none
      in if ltb image.size (fs_start + bfs_super_size) then ok none else probe

-- `(start_block, end_block, end_offset, file_type)`
pub record Extent : Type 0 where
  pub start_block : ℕ
  pub end_block : ℕ
  pub end_offset : ℕ
  pub file_type : ℕ

unfoldable pub read_extent : Buf → ℕ → Result Extent
read_extent image at = do
  sblock ← u32 image (at + bfs_dirent_sblock_offset)
  eblock ← u32 image (at + bfs_dirent_eblock_offset)
  eoffset ← u32 image (at + bfs_dirent_eoffset_offset)
  file_type ← u32 image (at + bfs_dirent_vattr_offset + bfs_vattr_type_offset)
  ok (record {
    start_block = sblock;
    end_block = eblock;
    end_offset = eoffset;
    file_type = file_type;
  })

unfoldable pub read_inode : Buf → Bfs → ℕ → Result (Option Extent)
read_inode image bfs inode_number =
    let slot = inode_number - bfs_root_inode in
    let at = bfs.start_offset + bfs_super_size + slot * bfs_dirent_size in
    let stored = do
      stored_ino ← u16 image (at + bfs_dirent_ino_offset)
      let extent = map_ok (λ e. some e) (read_extent image at)
      if stored_ino == inode_number then extent else ok none
    in if ltb inode_number bfs_root_inode
      then ok none
      else if ltb image.size (at + bfs_dirent_size)
      then ok none
      else stored

unfoldable pub inode_size : (sblock eoffset : ℕ) → ℕ
inode_size sblock eoffset =
    let start = sblock * sector_size in
    if sblock == 0 then 0 else if leb start eoffset then eoffset - start + 1 else 0

-- A character of several bytes that was begun: its bits so far, the bytes that are missing, and the
-- range of the next one.
pub record Begun : Type 0 where
  pub code : ℕ
  pub missing : ℕ
  pub low : ℕ
  pub high : ℕ

abbrev pub begun : (code missing low high : ℕ) → String × Option Begun
begun code missing low high =
    ([], some (record { code = code; missing = missing; low = low; high = high }))

-- A byte where a character begins.
unfoldable pub first_byte : ℕ → String × Option Begun
first_byte c =
    if ltb c 0x80
    then (c ∷ [], none)
    else if ltb c 0xC2
    then (0xFFFD ∷ [], none)
    else if ltb c 0xE0
    then begun (c % 32) 1 0x80 0xBF
    else if ltb c 0xF0
    then begun (c % 16) 2 (if c == 0xE0 then 0xA0 else 0x80) (if c == 0xED then 0x9F else 0xBF)
    else if ltb c 0xF5
    then begun (c % 8) 3 (if c == 0xF0 then 0x90 else 0x80) (if c == 0xF4 then 0x8F else 0xBF)
    else (0xFFFD ∷ [], none)

unfoldable pub next_byte : Option Begun → ℕ → String × Option Begun
next_byte none c = first_byte c
next_byte (some p) c =
    let code = p.code * 64 + c % 64 in
    let last : String × Option Begun = (code ∷ [], none) in
    let more = begun code (p.missing - 1) 0x80 0xBF in
    let broken = first_byte c in
    if leb p.low c && leb c p.high
    then (if p.missing == 1 then last else more)
    else (0xFFFD ∷ broken.0, broken.1)

-- `String::from_utf8_lossy`: each longest part that begins a character and does not end one is replaced.
unfoldable pub from_utf8_lossy : Option Begun → List ℕ → String
from_utf8_lossy none [] = []
from_utf8_lossy (some p) [] = 0xFFFD ∷ []
from_utf8_lossy pending (c ∷ cs) =
    let next = next_byte pending c in next.0 ++ from_utf8_lossy next.1 cs

pub record BfsEntry : Type 0 where
  pub name : String
  pub inode : ℕ
  pub size : ℕ

-- The bytes before the first 0.
unfoldable pub before_zero : List ℕ → List ℕ
before_zero [] = []
before_zero (b ∷ bs) = let rest = before_zero bs in if b == 0 then [] else b ∷ rest

unfoldable pub size_of : Option Extent → ℕ
size_of none = 0
size_of (some e) = inode_size e.start_block e.end_offset

unfoldable pub root_entry : Buf → Bfs → (at ino : ℕ) → Result BfsEntry
root_entry image bfs at ino = do
  raw ← slice image (at + 2) (at + bfs_ldir_size)
  found ← read_inode image bfs ino
  let name = from_utf8_lossy none (before_zero (list_from raw.byte raw.size 0))
  ok (record { name = name; inode = ino; size = size_of found })

-- `while offset + BFS_LDIR_SIZE <= dir_len`, on fuel.
unfoldable pub list_loop :
    Buf → Bfs → (dir_start dir_len : ℕ) → (fuel offset : ℕ) → Result (List BfsEntry)
list_loop image bfs dir_start dir_len zero offset = ok []
list_loop image bfs dir_start dir_len (suc fuel) offset =
    let at = dir_start + offset in
    let rest = list_loop image bfs dir_start dir_len fuel (offset + bfs_ldir_size) in
    let step = do
      ino ← u16 image at
      let entry = do e ← root_entry image bfs at ino; map_ok (λ es. e ∷ es) rest
      if ino == 0 then rest else entry
    in if leb (offset + bfs_ldir_size) dir_len
      then (if ltb image.size (at + bfs_ldir_size) then ok [] else step)
      else ok []

-- A round moves on by 16 bytes, so `dir_len` rounds are enough.
unfoldable pub list_root : Buf → Bfs → Result (List BfsEntry)
list_root image bfs = do
  root? ← read_inode image bfs bfs_root_inode
  elim root? [
    | none ↦ ok []
    | some e ↦
        let dir_start = bfs.start_offset + e.start_block * sector_size in
        let dir_len = inode_size e.start_block e.end_offset in
        list_loop image bfs dir_start dir_len dir_len 0
  ]

unfoldable pub find_entry : String → List BfsEntry → Option BfsEntry
find_entry name [] = none
find_entry name (e ∷ es) =
    let rest = find_entry name es in if same_bytes e.name name then some e else rest

unfoldable pub read_extent_bytes : Buf → Bfs → Extent → Result (Option Buf)
read_extent_bytes image bfs e =
    let size = inode_size e.start_block e.end_offset in
    let start = bfs.start_offset + e.start_block * sector_size in
    if ltb image.size (start + size)
    then ok none
    else map_ok (λ b. some b) (slice image start (start + size))

unfoldable pub read_file : Buf → Bfs → String → Result (Option Buf)
read_file image bfs name = do
  entries ← list_root image bfs
  elim (find_entry name entries) [
    | none ↦ ok none
    | some entry ↦ do
      found ← read_inode image bfs entry.inode
      elim found [ none ↦ ok none | some e ↦ read_extent_bytes image bfs e ]
  ]
