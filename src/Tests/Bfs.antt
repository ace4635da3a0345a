-- ===== src/Tests/Bfs.antt =====
-- A boot file system that is formatted with two files, and read.
use ufs_fuse.Base.{
  ◌+◌, ◌≡◌, ◌≤◌, ◌<◌, ◌⊎◌, ◌↔◌, refl, ok, panic, none, some, List, [], ◌∷◌, map, pos, arith,
  replicate,
}
use ufs_fuse.Core.Image.{Buf, get, slice, zeroed, write_at, fill_zero}
use ufs_fuse.Core.Codec.{u16, u32, put_u16, put_u32, put_i32, to_le_bytes}
use ufs_fuse.Ufs.Dir.{list_from, same_bytes}
use ufs_fuse.Ufs.Write.Entries.{String, as_bytes, utf8, byte_length, buf_of}
use ufs_fuse.Bfs.{Bfs, put_dirent, put_vattr}
use ufs_fuse.Bfs.Read.{
  detect_at_start, read_extent, read_inode, inode_size, first_byte, next_byte, from_utf8_lossy,
  before_zero, size_of, root_entry, list_loop, list_root,
}
use ufs_fuse.Bfs.Format.{
  Layout, formatted, refused, no_room_for_file, lay_out, format, contains_char, contains_name,
  is_ascii, name_error, check_names, first_error, layout_inode, place, prepend, put_superblock,
  put_root, put_file, put_root_entry, put_files, write_all,
}
use ufs_fuse.Bfs.Inodes.{slot_offset, read_inode-put_dirent}
use ufs_fuse.Bfs.Names.{AllNames, Distinct, check_names_lem}
use ufs_fuse.Bfs.Extents.{Apart, Sized, room, file_of, lay_out_lem}

abbrev unix_boot : List (String × Buf)
unix_boot =
    (117 ∷ [], buf_of (7 ∷ 8 ∷ 9 ∷ []))
    ∷ (101 ∷ [], zeroed 0)
    ∷ (98 ∷ [], buf_of (replicate 3 5))
    ∷ []

lay_out_lem_example :
    ((2048 + room unix_boot ≤ 4096)
      × (ls : List Layout) × (lay_out 4096 unix_boot 0 2048 ≡ ok (formatted ls))
      × (map file_of ls ≡ unix_boot)
      × Apart 2048 4096 ls
      × Sized ls)
    ⊎ ((4096 < 2048 + room unix_boot)
        × (name : String) × (lay_out 4096 unix_boot 0 2048 ≡ ok (refused (no_room_for_file name))))
lay_out_lem_example =
    lay_out_lem 4096 unix_boot 0 2048 (omega arith) (omega arith) refl (omega arith) (omega arith)

abbrev formatted_image : Buf
formatted_image = elim (format (zeroed 4096) 0 4096 unix_boot none (pos 0)) [
  | panic ↦ zeroed 0
  | ok r ↦ elim r [ formatted b ↦ b | refused e ↦ zeroed 0 ]
]

abbrev stand : Bfs
stand = record { start_offset = 0; data_start = 1536; data_end = 4095 }

-- What is formatted is detected, and its entries are listed with their sizes.
listed :
    (detect_at_start formatted_image 0 ≡ ok (some stand))
    × (list_root formatted_image stand
        ≡ ok (
            record { name = 117 ∷ []; inode = 3; size = 3 }
            ∷ record { name = 101 ∷ []; inode = 4; size = 0 }
            ∷ record { name = 98 ∷ []; inode = 5; size = 3 }
            ∷ []))
unfolding format contains_char contains_name is_ascii name_error check_names first_error
    layout_inode place prepend lay_out put_superblock put_root put_file put_root_entry put_files
    write_all put_dirent put_vattr get slice zeroed write_at fill_zero u16 u32 put_u16 put_u32
    put_i32 to_le_bytes list_from same_bytes as_bytes utf8 byte_length buf_of detect_at_start
    read_extent read_inode inode_size first_byte next_byte from_utf8_lossy before_zero size_of
    root_entry list_loop list_root
listed = (refl, refl)

-- A byte that begins no character, a character of two bytes, and one of three that is cut off.
lossy :
    from_utf8_lossy none (0xFF ∷ 0xC3 ∷ 0xA4 ∷ 0xE2 ∷ 0x82 ∷ 65 ∷ [])
    ≡ 0xFFFD ∷ 0xE4 ∷ 0xFFFD ∷ 65 ∷ []
unfolding first_byte next_byte from_utf8_lossy
lossy = refl

slot_fits : slot_offset stand 4 + 64 ≤ formatted_image.size
unfolding format contains_char contains_name is_ascii name_error check_names first_error
    layout_inode place prepend lay_out put_superblock put_root put_file put_root_entry put_files
    write_all put_dirent put_vattr slice zeroed write_at fill_zero put_u16 put_u32 put_i32
    to_le_bytes same_bytes as_bytes utf8 byte_length buf_of
slot_fits = omega arith

read_inode-put_dirent_example :
    (image' : Buf) × (put_dirent formatted_image (slot_offset stand 4) 4 6 6 3080 1 420 1 (pos 9)
      ≡ ok image')
    × (read_inode image' stand 4
        ≡ ok (some (record { start_block = 6; end_block = 6; end_offset = 3080; file_type = 1 })))
    × (read_inode image' stand 3 ≡ read_inode formatted_image stand 3)
read_inode-put_dirent_example =
    read_inode-put_dirent formatted_image stand 4 6 6 3080 1 420 1 (pos 9) (omega arith)
      (omega arith) (omega arith) (omega arith) (omega arith) (omega arith) slot_fits 3
      (omega arith)

check_names_lem_example :
    (check_names [] unix_boot ≡ none) ↔ (AllNames unix_boot × Distinct unix_boot)
check_names_lem_example = check_names_lem unix_boot

unix_boot_accepted : check_names [] unix_boot ≡ none
unfolding check_names first_error name_error contains_char contains_name is_ascii same_bytes
    as_bytes utf8 byte_length
unix_boot_accepted = refl
