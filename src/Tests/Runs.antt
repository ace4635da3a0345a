-- ===== src/Tests/Runs.antt =====
-- Runs of fragments in the map of a group, and a partition table.
use ufs_fuse.Base.{
  ℕ, ◌+◌, ◌≡◌, refl, false, ◌&&◌, ok, ◌==◌, ltb, leb, if◌then◌else◌, Option, some, arith, pos, [],
  ◌∷◌,
}
use ufs_fuse.Core.Image.{Buf, IsBytes, get}
use ufs_fuse.Ufs.Bitmap.{is_frag_free, get_state, test_bit}
use ufs_fuse.Ufs.Alloc.Group.{set_frag_run}
use ufs_fuse.Ufs.Alloc.Blocks.{is_run_free, find_free_run}
use ufs_fuse.Ufs.Alloc.Runs.{is_free, Found, set_frag_run_lem, find_free_run_lem}
use ufs_fuse.Disk.Mbr.{decode_chs}
use ufs_fuse.Disk.Structures.{AltTableInfo}
use ufs_fuse.Disk.Svr4.{remap_track, used_entries, find_bad, same_int, add_nat}

-- The fragments 12 to 15 are free.
unfoldable group_byte : ℕ → ℕ
group_byte a = if a == 985 then 240 else 0

abbrev group : Buf
group = record { size = 4096; byte = group_byte }

group-IsBytes : IsBytes group
unfolding group_byte
group-IsBytes a = ground arith

found_12 : find_free_run group 4 40 34 8 ≡ ok (some 12)
unfolding find_free_run is_run_free is_frag_free get_state test_bit get group_byte
found_12 = refl

set_frag_run_lem_example :
    (c : Buf) × (set_frag_run group 12 4 false ≡ ok c)
    × (c.size ≡ 4096)
    × IsBytes c
    × ((j : ℕ) → is_free c j ≡ (if leb 12 j && ltb j (12 + 4) then false else is_free group j))
set_frag_run_lem_example = set_frag_run_lem group 12 4 false group-IsBytes (omega arith)

find_free_run_lem_example :
    (r : Option ℕ) × (find_free_run group 4 40 34 8 ≡ ok r)
    × Found group 4 40 (omega arith) (omega arith) 8 r
find_free_run_lem_example =
    find_free_run_lem group 4 40 (omega arith) (omega arith) 34 8 (omega arith) (omega arith)

-- The bytes 3, 0xC1 and 0x10.
unfoldable chs_byte : ℕ → ℕ
chs_byte a = if a == 0 then 3 else if a == 1 then 193 else 16

chs_784 :
    decode_chs (record { size = 3; byte = chs_byte })
    ≡ ok (record { cylinder = 784; head = 3; sector = 1 })
unfolding decode_chs get chs_byte
chs_784 = refl

abbrev alternates : AltTableInfo
alternates = record {
  used = 2;
  reserved = 3;
  base_sector = pos 1000;
  bad_entries = pos 7 ∷ pos 9 ∷ pos 0 ∷ [];
}

-- Track 9 of 32 sectors is replaced by the second alternate track.
remapped : remap_track alternates 32 290 ≡ ok (pos 1034)
unfolding remap_track used_entries find_bad same_int add_nat
remapped = refl
