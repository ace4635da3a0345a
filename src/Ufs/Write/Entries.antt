-- ===== src/Ufs/Write/Entries.antt =====
-- write.rs: records put into the bytes of a directory, and taken out of them. A string is the list of
-- its characters, and its bytes are its UTF-8 form.
use ufs_fuse.Base.{
  ℕ, zero, suc, ◌+◌, ◌-◌, ◌/◌, ◌%◌, min, max, Bool, true, false, not, ◌&&◌, Option, none, some,
  List, [], ◌∷◌, ◌++◌, length, get_or, Result, ok, ◌>>=◌, map_ok, Reply, done, failed,
  no_directory_slot, ltb, leb, ◌==◌, if◌then◌else◌,
}
use ufs_fuse.Core.Image.{Buf, zeroed, write_at}
use ufs_fuse.Core.Codec.{put_u16, put_u32}
use ufs_fuse.Core.Consts.{
  ufs_dirsiz, ufs_dirblksiz, ufs_dirent_reclen_offset, ufs_dirent_namlen_offset,
  ufs_dirent_name_offset,
}
use ufs_fuse.Ufs.Bitmap.{div_ceil}
use ufs_fuse.Ufs.Dir.{DirEntryHeader, decode_directory_header}
use ufs_fuse.Ufs.Reader.{extend}
use ufs_fuse.Ufs.Write.Fields.{as_u16, as_u32}

abbrev pub String : Type 0
String = List ℕ

-- The UTF-8 form of a character.
unfoldable pub utf8 : ℕ → List ℕ
utf8 c =
    if ltb c 0x80
    then c ∷ []
    else if ltb c 0x800
    then (0xC0 + c / 64) ∷ (0x80 + c % 64) ∷ []
    else if ltb c 0x10000
    then (0xE0 + c / 4096) ∷ (0x80 + c / 64 % 64) ∷ (0x80 + c % 64) ∷ []
    else (0xF0 + c / 262144) ∷ (0x80 + c / 4096 % 64) ∷ (0x80 + c / 64 % 64) ∷ (0x80 + c % 64) ∷ []

unfoldable pub as_bytes : String → List ℕ
as_bytes [] = []
as_bytes (c ∷ cs) = utf8 c ++ as_bytes cs

-- `s.len()`
unfoldable pub byte_length : String → ℕ
byte_length s = length (as_bytes s)

unfoldable pub buf_of : List ℕ → Buf
buf_of bytes = record { size = length bytes; byte = λ a. get_or bytes a 0 }

unfoldable pub encode_entry : (inode_number : ℕ) → String → (record_length : ℕ) → Result Buf
encode_entry inode_number name record_length = do
  raw ← put_u32 (zeroed record_length) 0 (as_u32 inode_number)
  raw ← put_u16 raw ufs_dirent_reclen_offset (as_u16 record_length)
  raw ← put_u16 raw ufs_dirent_namlen_offset (as_u16 (byte_length name))
  write_at raw ufs_dirent_name_offset (buf_of (as_bytes name))

unfoldable pub build_directory_block : (self_inode parent_inode : ℕ) → Result Buf
build_directory_block self_inode parent_inode = do
  dot ← encode_entry self_inode (46 ∷ []) (ufs_dirsiz 1)
  dotdot ← encode_entry parent_inode (46 ∷ 46 ∷ []) (ufs_dirblksiz - dot.size)
  ok (extend dot dotdot)

pub record InsertSlot : Type 0 where
  pub block_offset : ℕ
  pub entry_offset : ℕ
  pub record_length : ℕ
  pub previous_entry_offset : Option ℕ
  pub previous_entry_new_length : Option ℕ

-- A slot that is a whole directory block.
unfoldable pub whole_block : ℕ → InsertSlot
whole_block block_offset = record {
  block_offset = block_offset;
  entry_offset = block_offset;
  record_length = ufs_dirblksiz;
  previous_entry_offset = none;
  previous_entry_new_length = none;
}

-- The room at the record with the header `entry`: the record itself where it is not in use, or what
-- follows the part of it that its name needs.
unfoldable pub slot_at :
    (needed_length block_offset cursor : ℕ) → DirEntryHeader → Option InsertSlot
slot_at needed_length block_offset cursor entry =
    let minimal_length = ufs_dirsiz entry.name_length in
    let available_length = entry.record_length - minimal_length in
    if (entry.inode == 0) && leb needed_length entry.record_length
    then some (record {
      block_offset = block_offset;
      entry_offset = cursor;
      record_length = entry.record_length;
      previous_entry_offset = none;
      previous_entry_new_length = none;
    })
    else if not (entry.inode == 0) && leb needed_length available_length
    then some (record {
      block_offset = block_offset;
      entry_offset = cursor + minimal_length;
      record_length = available_length;
      previous_entry_offset = some cursor;
      previous_entry_new_length = some minimal_length;
    })
    else none

-- `while cursor + 8 <= block_limit`, on fuel: whether a record was found, and the slot if there is one.
unfoldable pub record_slot :
    Buf
    → (needed_length block_offset block_limit fuel cursor : ℕ) → Bool
    → Result (Bool × Option InsertSlot)
record_slot directory_bytes needed_length block_offset block_limit zero cursor found_record =
    ok (found_record, none)
record_slot directory_bytes needed_length block_offset block_limit (suc fuel) cursor found_record =
    let step : Result (Bool × Option InsertSlot) = (do
      header? ← decode_directory_header directory_bytes cursor block_limit
      elim header? [
        | none ↦ ok (found_record, none)
        | some entry ↦ elim (slot_at needed_length block_offset cursor entry) [
          | some slot ↦ ok (true, some slot)
          | none ↦
              record_slot directory_bytes needed_length block_offset block_limit fuel
                (cursor + entry.record_length) true
        ]
      ]) in
    if leb (cursor + 8) block_limit then step else ok (found_record, none)

-- `while block_offset < rounded_length`, with `n` rounds left, and what follows the loop. A record takes
-- at least one byte, so as many rounds as a block has bytes are enough for `record_slot`.
unfoldable pub block_slot :
    Buf → (max_length needed_length n block_offset : ℕ) → Result (Option InsertSlot)
block_slot directory_bytes max_length needed_length zero block_offset =
    ok (if leb needed_length ufs_dirblksiz then some (whole_block block_offset) else none)
block_slot directory_bytes max_length needed_length (suc n) block_offset =
    let block_limit = min (block_offset + ufs_dirblksiz) max_length in
    let next =
      block_slot directory_bytes max_length needed_length n (block_offset + ufs_dirblksiz) in
    let unused : Result (Option InsertSlot) =
      if leb needed_length ufs_dirblksiz then ok (some (whole_block block_offset)) else next in
    let search : Result (Option InsertSlot) = (do
      (found_record, slot?) ←
          record_slot directory_bytes needed_length block_offset block_limit ufs_dirblksiz
            block_offset false
      elim slot? [ some slot ↦ ok (some slot) | none ↦ if found_record then next else unused ]) in
    if leb block_limit block_offset then unused else search

unfoldable pub find_insert_slot : Buf → ℕ → String → Result (Option InsertSlot)
find_insert_slot directory_bytes size name =
    let max_length = min directory_bytes.size size in
    let blocks = max 1 (div_ceil max_length ufs_dirblksiz) in
    block_slot directory_bytes max_length (ufs_dirsiz (byte_length name)) blocks 0

-- What the slot has before it or after it: the record that it is cut from is made shorter, or what is
-- left of a free record becomes one of its own. Also the length of the new record.
unfoldable pub make_room : Buf → InsertSlot → (needed_length : ℕ) → Result (Buf × ℕ)
make_room updated slot needed_length =
    let remaining_length = slot.record_length - needed_length in
    let target_length = max needed_length slot.record_length in
    let fill : Result (Buf × ℕ) = (do
      filler ← encode_entry 0 [] remaining_length
      updated ← write_at updated (slot.entry_offset + needed_length) filler
      ok (updated, needed_length)) in
    let free_slot : Result (Buf × ℕ) =
      if leb 8 remaining_length then fill else ok (updated, target_length) in
    elim slot.previous_entry_offset [
      | none ↦ free_slot
      | some prev_off ↦ elim slot.previous_entry_new_length [
        | none ↦ free_slot
        | some prev_len ↦ do
          updated ← put_u16 updated (prev_off + ufs_dirent_reclen_offset) (as_u16 prev_len)
          ok (updated, slot.record_length)
      ]
    ]

unfoldable pub insert_at : Buf → InsertSlot → (inode_number : ℕ) → String → Result Buf
insert_at directory_bytes slot inode_number name = do
  let needed_length = ufs_dirsiz (byte_length name)
  let new_size =
      max (max directory_bytes.size (slot.block_offset + ufs_dirblksiz))
        (slot.entry_offset + max needed_length slot.record_length)
  updated ← write_at (zeroed new_size) 0 directory_bytes
  (updated, target_length) ← make_room updated slot needed_length
  raw ← encode_entry inode_number name target_length
  write_at updated slot.entry_offset raw

unfoldable pub insert_entry : Buf → (size inode_number : ℕ) → String → Result (Reply Buf)
insert_entry directory_bytes size inode_number name = do
  slot? ← find_insert_slot directory_bytes size name
  elim slot? [
    | none ↦ ok (failed no_directory_slot)
    | some slot ↦ map_ok (λ b. done b) (insert_at directory_bytes slot inode_number name)
  ]
