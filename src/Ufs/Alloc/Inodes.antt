-- ===== src/Ufs/Alloc/Inodes.antt =====
-- `allocate_inode` and `free_inode`.
use ufs_fuse.Base.{
  ℕ, zero, suc, ◌+◌, ◌*◌, ◌%◌, Bool, true, false, not, ◌&&◌, Option, none, some, Result, ok, ◌>>=◌,
  Reply, done, failed, invalid_cg, already_free, no_free_inodes, ◌==◌, if◌then◌else◌, pos, negsuc,
}
use ufs_fuse.Core.Image.{Buf}
use ufs_fuse.Core.Codec.{u32, put_u32}
use ufs_fuse.Core.Consts.{
  ufs_cg_cs_nifree_offset, ufs_cg_irotor_offset, ufs_cg_magic, ufs_cg_magic_offset,
}
use ufs_fuse.Ufs.Superblock.{Ufs, itog}
use ufs_fuse.Ufs.Bitmap.{is_inode_used, set_inode_state}
use ufs_fuse.Ufs.Alloc.Group.{
  read_cg_block, write_cg_block, read_allocatable_cg_block, adjust_cg_free_inodes,
  adjust_cg_directory_count, adjust_superblock_free_inodes, adjust_superblock_directory_count,
}

-- The inner loop: the first free inode from the rotor on, `n` candidates from `offset` on.
unfoldable pub find_free_inode : Buf → ℕ → ℕ → ℕ → ℕ → Result (Option ℕ)
find_free_inode cg_bytes ipg start_inode zero offset = ok none
find_free_inode cg_bytes ipg start_inode (suc n) offset =
    let candidate = (start_inode + offset) % ipg in
    let next = find_free_inode cg_bytes ipg start_inode n (offset + 1) in
    is_inode_used cg_bytes candidate >>= λ used. if used then next else ok (some candidate)

-- The inode to take in one group: the preferred one if this is its group and it is free, or the first
-- free one.
unfoldable pub choose_inode : Buf → Ufs → Option ℕ → Result (Option ℕ)
choose_inode cg_bytes ufs preferred = do
  irotor ← u32 cg_bytes ufs_cg_irotor_offset
  let search = find_free_inode cg_bytes ufs.sb.ipg (irotor % ufs.sb.ipg) ufs.sb.ipg 0
  elim preferred [
    | none ↦ search
    | some pref ↦ is_inode_used cg_bytes pref >>= λ used. if used then search else ok (some pref)
  ]

-- What is written once the inode `local` of group `cg` is chosen.
unfoldable pub take_inode : Buf → Ufs → ℕ → Buf → ℕ → Bool → Result Buf
take_inode image ufs cg cg_bytes local directory = do
  b ← set_inode_state cg_bytes local true
  b ← put_u32 b ufs_cg_irotor_offset local
  b ← adjust_cg_free_inodes b (negsuc 0)
  b ← if directory then adjust_cg_directory_count b (pos 1) else ok b
  image ← write_cg_block image ufs cg b
  image ← adjust_superblock_free_inodes image ufs (negsuc 0)
  if directory then adjust_superblock_directory_count image ufs (pos 1) else ok image

-- One round of the loop: `none` in the reply goes on to the next group.
unfoldable pub try_group : Buf → Ufs → ℕ → Option ℕ → Bool → Result (Option ℕ × Buf)
try_group image ufs cg preferred directory = do
  (cg_bytes, image) ← read_allocatable_cg_block image ufs cg
  magic ← u32 cg_bytes ufs_cg_magic_offset
  nifree ← u32 cg_bytes ufs_cg_cs_nifree_offset
  let attempt = do
    chosen ← choose_inode cg_bytes ufs preferred
    elim chosen [
      | none ↦ ok (none, image)
      | some local ↦ do
        image ← take_inode image ufs cg cg_bytes local directory
        ok (some (cg * ufs.sb.ipg + local), image)
    ]
  if (magic == ufs_cg_magic) && not (nifree == 0) then attempt else ok (none, image)

-- `for attempt in 0..total_cg`, with `n` rounds left. Only the first looks at the preferred inode.
unfoldable pub allocate_inode_loop :
    Buf → Ufs → ℕ → ℕ → ℕ → Option ℕ → Bool → Result (Reply ℕ × Buf)
allocate_inode_loop image ufs start_cg zero attempt preferred directory =
    ok (failed no_free_inodes, image)
allocate_inode_loop image ufs start_cg (suc n) attempt preferred directory = do
  (found, image) ← try_group image ufs ((start_cg + attempt) % ufs.sb.ncg) preferred directory
  let next = allocate_inode_loop image ufs start_cg n (attempt + 1) none directory
  elim found [ none ↦ next | some inode_number ↦ ok (done inode_number, image) ]

unfoldable pub start_group : Ufs → Option ℕ → ℕ
unfolding itog
start_group ufs none = 0
start_group ufs (some i) = itog ufs.sb i

unfoldable pub local_index : Ufs → Option ℕ → Option ℕ
local_index ufs none = none
local_index ufs (some i) = some (i % ufs.sb.ipg)

unfoldable pub allocate_inode : Buf → Ufs → Option ℕ → Bool → Result (Reply ℕ × Buf)
allocate_inode image ufs preferred_inode directory =
    allocate_inode_loop image ufs (start_group ufs preferred_inode) ufs.sb.ncg 0
      (local_index ufs preferred_inode) directory

-- What is written when a used inode is freed.
unfoldable pub release_inode : Buf → Ufs → ℕ → Buf → ℕ → Bool → Result Buf
release_inode image ufs cg cg_bytes local directory = do
  b ← set_inode_state cg_bytes local false
  b ← adjust_cg_free_inodes b (pos 1)
  b ← if directory then adjust_cg_directory_count b (negsuc 0) else ok b
  image ← write_cg_block image ufs cg b
  image ← adjust_superblock_free_inodes image ufs (pos 1)
  if directory then adjust_superblock_directory_count image ufs (negsuc 0) else ok image

unfoldable pub free_inode : Buf → Ufs → ℕ → Bool → Result (Reply (Unit {0}) × Buf)
unfolding itog
free_inode image ufs inode_number directory = do
  let cg = itog ufs.sb inode_number
  let local = inode_number % ufs.sb.ipg
  cg_bytes ← read_cg_block image ufs cg
  magic ← u32 cg_bytes ufs_cg_magic_offset
  let release = do
    used ← is_inode_used cg_bytes local
    let free = (do
      image' ← release_inode image ufs cg cg_bytes local directory
      ok (done tt, image'))
    if used then free else ok (failed already_free, image)
  if magic == ufs_cg_magic then release else ok (failed invalid_cg, image)
