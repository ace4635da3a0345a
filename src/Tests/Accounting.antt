-- ===== src/Tests/Accounting.antt =====
-- The accounts of the small disk, and calls on it.
use ufs_fuse.Base.{
  ℕ, ◌+◌, ◌<◌, ◌≡◌, zero, suc, refl, true, false, ok, arith, some, done, List, [], ◌∷◌,
}
use ufs_fuse.Core.Image.{Buf}
use ufs_fuse.Core.Codec.{peek32}
use ufs_fuse.Core.Consts.{ufs_cg_cs_nifree_offset}
use ufs_fuse.Ufs.Bitmap.{test_bit}
use ufs_fuse.Ufs.Bitmap.Laws.{bit}
use ufs_fuse.Ufs.Alloc.Inodes.{allocate_inode}
use ufs_fuse.Ufs.Alloc.InodeLaws.{IsTaken}
use ufs_fuse.Ufs.Alloc.Accounting.{free_in_group, free_in_all, IsCounted}
use ufs_fuse.Ufs.Alloc.Accounting.Kept.{allocate_inode_finds}
use ufs_fuse.Ufs.Alloc.Accounting.Machine.{
  Request, alloc, free, Answers, run, AllowedRun, used_set, run-AllowedRun,
}
use ufs_fuse.Tests.Disk.{mini, mini_base, mini_byte, disk, mini-Formatted}
use ufs_fuse.Tests.Inodes.{bit_2_free}

group_count :
    (g : ℕ)
    → g < 2
    → peek32 disk (mini_base g + ufs_cg_cs_nifree_offset) ≡ free_in_group mini mini_base disk g
unfolding free_in_group peek32 mini_byte bit test_bit
group_count zero h = refl
group_count (suc zero) h = refl
group_count (suc (suc g)) h = absurd (omega arith)

total_count : peek32 disk 8392 ≡ free_in_all mini mini_base disk
unfolding free_in_all free_in_group peek32 mini_byte bit test_bit
total_count = refl

disk-IsCounted : IsCounted mini mini_base disk
disk-IsCounted = record {
  formatted = mini-Formatted;
  few = omega arith;
  group = group_count;
  total = total_count;
}

allocate_inode_finds_example :
    (i : ℕ) × (image' : Buf) × (allocate_inode disk mini (some 5) false ≡ ok (done i, image'))
    × IsTaken mini mini_base false disk i image'
allocate_inode_finds_example =
    allocate_inode_finds mini mini_base disk (some 5) false 1 2 disk-IsCounted (omega arith)
      (omega arith) bit_2_free

-- An inode is allocated for a directory, one in use is freed, and one that is free is refused.
abbrev requests : List Request
requests = alloc (some 3) true ∷ free 1 false ∷ free 40 true ∷ []

run-AllowedRun_example :
    (answers : Answers requests) × (image' : Buf) × (run mini requests disk ≡ ok (answers, image'))
    × IsCounted mini mini_base image'
    × AllowedRun 64 requests answers (used_set mini mini_base disk) (used_set mini mini_base image')
run-AllowedRun_example =
    run-AllowedRun mini mini_base requests disk disk-IsCounted
      (tt, (omega arith, (omega arith, tt)))
