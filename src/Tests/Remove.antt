-- ===== src/Tests/Remove.antt =====
-- Entries taken out of a directory block.
use ufs_fuse.Base.{
  ℕ, ◌≡◌, ◌⊎◌, refl, ok, panic, none, some, List, [], ◌∷◌, replicate, done, failed, arith,
}
use ufs_fuse.Core.Image.{Buf, get, slice, write_at, zeroed}
use ufs_fuse.Core.Codec.{u16, u32, put_u16, put_u32, to_le_bytes}
use ufs_fuse.Core.Consts.{ufs_dirsiz}
use ufs_fuse.Ufs.Dir.{
  decode_directory_header, check_header, name_bytes, list_from, same_bytes, scan_block, scan_loop,
}
use ufs_fuse.Ufs.Dir.Tidy.{Entry, Tidy}
use ufs_fuse.Ufs.Write.Entries.{
  String, as_bytes, utf8, byte_length, buf_of, encode_entry, insert_entry, insert_at, make_room,
  find_insert_slot, block_slot, record_slot, slot_at, whole_block,
}
use ufs_fuse.Ufs.Write.Removal.{remove_entry}
use ufs_fuse.Ufs.Write.RemovedRecords.{take_out}
use ufs_fuse.Ufs.Write.RemoveEntry.{remove_entry_lem}
use ufs_fuse.Ufs.Write.RoundTrip.{remove_entry-insert_entry}
use ufs_fuse.Tests.Dirs.{dir_byte, dir_block}
use ufs_fuse.Tests.Write.{two_entries, dir_block-Tidy}

remove_entry_lem_example :
    ((take_out (46 ∷ 46 ∷ []) two_entries ≡ none)
      × (remove_entry dir_block 512 (46 ∷ 46 ∷ []) ≡ ok none))
    ⊎ ((rs' : List Entry) × (b' : Buf) × (take_out (46 ∷ 46 ∷ []) two_entries ≡ some rs')
        × (remove_entry dir_block 512 (46 ∷ 46 ∷ []) ≡ ok (some b'))
        × (b'.size ≡ 512)
        × Tidy b' 0 rs' 512)
remove_entry_lem_example =
    remove_entry_lem dir_block refl (46 ∷ 46 ∷ []) (omega arith, (omega arith, tt)) two_entries
      dir_block-Tidy

abbrev name_ab : String
name_ab = 97 ∷ 98 ∷ []

abbrev pub with_ab : Buf
with_ab = elim (insert_entry dir_block 512 9 name_ab) [
  | panic ↦ dir_block
  | ok r ↦ elim r [ done b ↦ b | failed e ↦ dir_block ]
]

ab_put : (insert_entry dir_block 512 9 name_ab ≡ ok (done with_ab)) × (with_ab.size ≡ 512)
unfolding insert_entry insert_at make_room find_insert_slot block_slot record_slot slot_at
    whole_block encode_entry byte_length buf_of as_bytes utf8 ufs_dirsiz decode_directory_header
    check_header u16 u32 put_u16 put_u32 to_le_bytes get slice write_at zeroed dir_byte
ab_put = (refl, refl)

ab_not_there : scan_block dir_block name_ab 512 ≡ ok none
unfolding scan_block scan_loop same_bytes decode_directory_header check_header name_bytes list_from
    u16 u32 get slice dir_byte
ab_not_there = refl

remove_entry-insert_entry_example :
    (b2 : Buf) × (remove_entry with_ab 512 name_ab ≡ ok (some b2))
    × ((m : List ℕ) → scan_block b2 m 512 ≡ scan_block dir_block m 512)
remove_entry-insert_entry_example =
    remove_entry-insert_entry 9 name_ab (λ e. omega arith) dir_block with_ab two_entries
      (omega arith, (omega arith, tt)) (omega arith) (omega arith) refl dir_block-Tidy ab_not_there
      ab_put.0 ab_put.1

-- A name of 256 bytes.
abbrev long_name : String
long_name = replicate 256 97

abbrev with_long_name : Buf
with_long_name = elim (insert_entry dir_block 512 9 long_name) [
  | panic ↦ dir_block
  | ok r ↦ elim r [ done b ↦ b | failed e ↦ dir_block ]
]

-- It is accepted, and is not found afterwards.
long_name_lost :
    (insert_entry dir_block 512 9 long_name ≡ ok (done with_long_name))
    × (scan_block with_long_name long_name 512 ≡ ok none)
unfolding insert_entry insert_at make_room find_insert_slot block_slot record_slot slot_at
    whole_block encode_entry byte_length buf_of as_bytes utf8 ufs_dirsiz decode_directory_header
    check_header u16 u32 put_u16 put_u32 to_le_bytes get slice write_at zeroed dir_byte scan_block
    scan_loop same_bytes name_bytes list_from
long_name_lost = (refl, refl)
