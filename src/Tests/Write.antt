-- ===== src/Tests/Write.antt =====
-- Entries put into a directory block, and an inode of the small disk that is initialized.
use ufs_fuse.Base.{
  ℕ, ◌+◌, ◌≤◌, ◌<◌, ◌≡◌, ◌⊎◌, refl, ok, panic, none, some, List, [], ◌∷◌, ◌++◌, done, failed,
  if◌then◌else◌, arith,
}
use ufs_fuse.Core.Image.{Buf, get, slice, write_at, zeroed}
use ufs_fuse.Core.Codec.{u16, u32, put_u16, put_u32, to_le_bytes, peek16, peek32}
use ufs_fuse.Core.Consts.{ufs_dirsiz}
use ufs_fuse.Ufs.Superblock.{
  inode_byte_offset, itod, itoo, itog, fsbtobytes, blkstofrags, cgimin, cgstart, cgbase, and_not,
  shl, i64,
}
use ufs_fuse.Ufs.Inode.{read_inode}
use ufs_fuse.Ufs.Dir.{
  decode_directory_header, check_header, name_bytes, list_from, same_bytes, scan_block, scan_loop,
}
use ufs_fuse.Ufs.Dir.Tidy.{Entry, Tidy}
use ufs_fuse.Ufs.Write.Entries.{
  String, as_bytes, utf8, byte_length, buf_of, encode_entry, insert_entry, insert_at, make_room,
  find_insert_slot, block_slot, record_slot, slot_at, whole_block,
}
use ufs_fuse.Ufs.Write.Fields.{initialize_inode}
use ufs_fuse.Ufs.Write.InodeLaws.{fresh_inode, read_inode-initialize_inode}
use ufs_fuse.Ufs.Write.InsertLaws.{filled}
use ufs_fuse.Ufs.Write.Inserted.{insert_record}
use ufs_fuse.Ufs.Write.InsertEntry.{insert_entry_lem}
use ufs_fuse.Ufs.Write.Lookup.{scan_block-insert_entry}
use ufs_fuse.Tests.Disk.{mini, disk}
use ufs_fuse.Tests.Dirs.{dir_byte, dir_block}

-- Inode 5 lies at fragment 20.
inode_5 : inode_byte_offset mini.sb mini.start_offset 5 ≡ ok 21120
unfolding inode_byte_offset itod itoo itog fsbtobytes blkstofrags cgimin cgstart cgbase and_not shl
    i64
inode_5 = refl

read_inode-initialize_inode_example :
    (image' : Buf) × (initialize_inode disk mini 5 0x81A4 10 20 1 1000 ≡ ok image')
    × (read_inode image' mini 5 ≡ ok (some (fresh_inode 0x81A4 10 20 1 1000)))
    × (image'.size ≡ disk.size)
    × ((a : ℕ) → (a < 21120) ⊎ (21120 + 128 ≤ a) → image'.byte a ≡ disk.byte a)
read_inode-initialize_inode_example =
    read_inode-initialize_inode disk mini 5 21120 0x81A4 10 20 1 1000 inode_5 (omega arith)
      (omega arith) (omega arith) (omega arith) (omega arith) (omega arith)

abbrev pub two_entries : List Entry
two_entries =
    record { inode = 2; record_length = 12; name = 46 ∷ [] }
    ∷ record { inode = 2; record_length = 500; name = 46 ∷ 46 ∷ [] }
    ∷ []

pub dir_block-Tidy : Tidy dir_block 0 two_entries 512
unfolding peek16 peek32 list_from dir_byte
dir_block-Tidy = (
  (refl, refl, refl, refl),
  (omega arith, omega arith),
  ((refl, refl, refl, refl), (omega arith, omega arith), refl),
)

-- `é.c` has 4 bytes.
abbrev new_name : String
new_name = 233 ∷ 46 ∷ 99 ∷ []

new_bytes : as_bytes new_name ≡ 195 ∷ 169 ∷ 46 ∷ 99 ∷ []
unfolding as_bytes utf8
new_bytes = refl

insert_entry_lem_example :
    ((rs' : List Entry) × (b' : Buf) × (insert_record 9 new_name two_entries ≡ some rs')
      × (insert_entry dir_block 512 9 new_name ≡ ok (done b'))
      × (b'.size ≡ 512)
      × Tidy b' 0 rs' 512)
    ⊎ ((b' : Buf) × (insert_record 9 new_name two_entries ≡ none)
        × (insert_entry dir_block 512 9 new_name ≡ ok (done b'))
        × (b'.size ≡ 1024)
        × Tidy b' 0 (two_entries ++ filled 9 new_name 512) 1024)
unfolding as_bytes utf8
insert_entry_lem_example =
    insert_entry_lem 9 new_name dir_block refl two_entries (omega arith) (omega arith)
      dir_block-Tidy

abbrev with_entry : Buf
with_entry = elim (insert_entry dir_block 512 9 new_name) [
  | panic ↦ dir_block
  | ok r ↦ elim r [ done b ↦ b | failed e ↦ dir_block ]
]

entry_put : insert_entry dir_block 512 9 new_name ≡ ok (done with_entry)
unfolding insert_entry insert_at make_room find_insert_slot block_slot record_slot slot_at
    whole_block encode_entry byte_length buf_of as_bytes utf8 ufs_dirsiz decode_directory_header
    check_header u16 u32 put_u16 put_u32 to_le_bytes get slice write_at zeroed dir_byte
entry_put = refl

not_there : scan_block dir_block (as_bytes new_name) 512 ≡ ok none
unfolding scan_block scan_loop same_bytes decode_directory_header check_header name_bytes list_from
    u16 u32 get slice dir_byte as_bytes utf8
not_there = refl

size_kept : with_entry.size ≡ 512
unfolding insert_entry insert_at make_room find_insert_slot block_slot record_slot slot_at
    whole_block encode_entry byte_length buf_of as_bytes utf8 ufs_dirsiz decode_directory_header
    check_header u16 u32 put_u16 put_u32 to_le_bytes get slice write_at zeroed dir_byte
size_kept = refl

scan_block-insert_entry_example : scan_block with_entry (46 ∷ 46 ∷ []) 512 ≡ (
    if same_bytes (as_bytes new_name) (46 ∷ 46 ∷ [])
    then ok (some 9)
    else scan_block dir_block (46 ∷ 46 ∷ []) 512)
unfolding as_bytes utf8
scan_block-insert_entry_example =
    scan_block-insert_entry 9 new_name (λ e. omega arith) dir_block with_entry two_entries
      (46 ∷ 46 ∷ []) (omega arith) (omega arith) refl dir_block-Tidy not_there entry_put size_kept
