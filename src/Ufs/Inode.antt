-- ===== src/Ufs/Inode.antt =====
-- crates/svr4-ufs/src/inode.rs: the on-disk inode, and the blocks that it owns.
pub mod Collect
pub mod Tree
pub mod Blocks
pub mod Fields
use ufs_fuse.Base.{
  ℕ, zero, suc, ◌+◌, ◌-◌, ◌*◌, ◌/◌, ◌≤◌, Bool, true, false, not, ◌||◌, Option, none, some, List, [],
  ◌∷◌, ◌++◌, Result, ok, ◌>>=◌, map_ok, ltb, leb, ◌==◌, if◌then◌else◌, bit_and, length, take,
}
use ufs_fuse.Core.Image.{Buf, slice}
use ufs_fuse.Core.Codec.{u16, u32, u64}
use ufs_fuse.Core.Consts.{
  ufs_dinode_size, ufs_di_atime_offset, ufs_di_blocks_offset, ufs_di_ctime_offset, ufs_di_db_offset,
  ufs_di_gid_offset, ufs_di_ib_offset, ufs_di_mode_offset, ufs_di_mtime_offset, ufs_di_nlink_offset,
  ufs_di_size_offset, ufs_di_uid_offset, ufs_ifdir, ufs_iflnk, ufs_ifmt, ufs_ifreg, ufs_ndaddr,
  ufs_niaddr,
}
use ufs_fuse.Ufs.Superblock.{Ufs, inode_byte_offset, data_block_offset}
use ufs_fuse.Ufs.Bitmap.{div_ceil}

pub record Inode : Type 0 where
  pub mode : ℕ
  pub nlink : ℕ
  pub uid : ℕ
  pub gid : ℕ
  pub atime : ℕ
  pub mtime : ℕ
  pub ctime : ℕ
  pub size : ℕ
  pub direct_blocks : List ℕ
  pub indirect_blocks : List ℕ
  pub blocks : ℕ

unfoldable pub file_type : Inode → ℕ
file_type inode = bit_and inode.mode ufs_ifmt

unfoldable pub is_directory : Inode → Bool
unfolding file_type
is_directory inode = file_type inode == ufs_ifdir

unfoldable pub is_symlink : Inode → Bool
unfolding file_type
is_symlink inode = file_type inode == ufs_iflnk

unfoldable pub is_regular : Inode → Bool
unfolding file_type
is_regular inode = file_type inode == ufs_ifreg

-- The `n` values of 32 bits from `offset` on.
unfoldable pub read_u32s : Buf → ℕ → ℕ → Result (List ℕ)
unfolding u32
read_u32s raw offset zero = ok []
read_u32s raw offset (suc n) = do
  v ← u32 raw offset
  rest ← read_u32s raw (offset + 4) n
  ok (v ∷ rest)

unfoldable pub decode_inode : Buf → Result Inode
unfolding read_u32s u16 u32 u64
decode_inode raw = do
  direct_blocks ← read_u32s raw ufs_di_db_offset ufs_ndaddr
  indirect_blocks ← read_u32s raw ufs_di_ib_offset ufs_niaddr
  mode ← u32 raw ufs_di_mode_offset
  nlink ← u16 raw ufs_di_nlink_offset
  uid ← u32 raw ufs_di_uid_offset
  gid ← u32 raw ufs_di_gid_offset
  atime ← u32 raw ufs_di_atime_offset
  mtime ← u32 raw ufs_di_mtime_offset
  ctime ← u32 raw ufs_di_ctime_offset
  size ← u64 raw ufs_di_size_offset
  blocks ← u32 raw ufs_di_blocks_offset
  ok (record {
    mode = mode;
    nlink = nlink;
    uid = uid;
    gid = gid;
    atime = atime;
    mtime = mtime;
    ctime = ctime;
    size = size;
    direct_blocks = direct_blocks;
    indirect_blocks = indirect_blocks;
    blocks = blocks;
  })

unfoldable pub read_inode : Buf → Ufs → ℕ → Result (Option Inode)
read_inode image ufs inode_number = do
  inode_offset ← inode_byte_offset ufs.sb ufs.start_offset inode_number
  if ltb inode_offset ufs.start_offset || ltb image.size (inode_offset + ufs_dinode_size)
      then ok none
      else (do
        raw ← slice image inode_offset (inode_offset + ufs_dinode_size)
        inode ← decode_inode raw
        ok (some inode))

unfoldable pub read_pointer_block : Buf → Ufs → ℕ → Result (List ℕ)
read_pointer_block image ufs fs_block = do
  block_offset ← data_block_offset ufs.sb ufs.start_offset fs_block
  raw ← slice image block_offset (block_offset + ufs.sb.bsize)
  read_u32s raw 0 ufs.sb.nindir

-- `max_blocks.map(|m| m.saturating_sub(used))`
unfoldable pub room : Option ℕ → ℕ → Option ℕ
room none used = none
room (some m) used = some (m - used)

-- The test `blocks.len() >= max`, and the blocks that are then returned.
unfoldable pub is_full : Option ℕ → List ℕ → Bool
is_full none blocks = false
is_full (some m) blocks = leb m (length blocks)

unfoldable pub truncate : Option ℕ → List ℕ → List ℕ
truncate none blocks = blocks
truncate (some m) blocks = take m blocks

-- The loop over the pointers of a block, with the blocks collected so far. `child` collects below a
-- pointer, and is not called at the last level.
unfoldable pub collect_loop :
    Bool → (ℕ → Option ℕ → Result (List ℕ)) → Option ℕ → List ℕ → List ℕ → Result (List ℕ)
collect_loop last child max_blocks [] blocks = ok blocks
collect_loop last child max_blocks (pointer ∷ pointers) blocks =
    let skip = collect_loop last child max_blocks pointers blocks in
    let found : Result (List ℕ) =
      if last
      then ok (blocks ++ pointer ∷ [])
      else map_ok (λ ys. blocks ++ ys) (child pointer (room max_blocks (length blocks))) in
    let add = do
      blocks' ← found
      let next = collect_loop last child max_blocks pointers blocks'
      if is_full max_blocks blocks' then ok (truncate max_blocks blocks') else next
    in if pointer == 0 then skip else add

unfoldable pub is_zero : Option ℕ → Bool
is_zero none = false
is_zero (some m) = m == 0

unfoldable pub collect_indirect_data_blocks : Buf → Ufs → ℕ → ℕ → Option ℕ → Result (List ℕ)
collect_indirect_data_blocks image ufs zero fs_block max_blocks = ok []
collect_indirect_data_blocks image ufs (suc levels) fs_block max_blocks =
    let child = collect_indirect_data_blocks image ufs levels in
    let walk = do
      pointers ← read_pointer_block image ufs fs_block
      collect_loop (levels == 0) child max_blocks pointers []
    in if (fs_block == 0) || is_zero max_blocks then ok [] else walk

unfoldable pub pointer_loop : (ℕ → Result (List ℕ)) → List ℕ → List ℕ → Result (List ℕ)
pointer_loop child [] blocks = ok blocks
pointer_loop child (pointer ∷ pointers) blocks =
    let skip = pointer_loop child pointers blocks in
    let add = do below ← child pointer; pointer_loop child pointers (blocks ++ below)
    in if pointer == 0 then skip else add

unfoldable pub collect_indirect_pointer_blocks : Buf → Ufs → ℕ → ℕ → Result (List ℕ)
collect_indirect_pointer_blocks image ufs zero fs_block = ok []
collect_indirect_pointer_blocks image ufs (suc levels) fs_block =
    let child = collect_indirect_pointer_blocks image ufs levels in
    let walk = do
      pointers ← read_pointer_block image ufs fs_block
      pointer_loop child pointers (fs_block ∷ [])
    in if fs_block == 0 then ok [] else if levels == 0 then ok (fs_block ∷ []) else walk

-- The roots of `inode.indirect_blocks`, the first with `levels` levels of indirection.
unfoldable pub pointer_roots : Buf → Ufs → ℕ → List ℕ → List ℕ → Result (List ℕ)
pointer_roots image ufs levels [] blocks = ok blocks
pointer_roots image ufs levels (root_block ∷ roots) blocks = do
  below ← collect_indirect_pointer_blocks image ufs levels root_block
  pointer_roots image ufs (levels + 1) roots (blocks ++ below)

unfoldable pub inode_pointer_blocks : Buf → Ufs → Inode → Result (List ℕ)
inode_pointer_blocks image ufs inode = pointer_roots image ufs 1 inode.indirect_blocks []

-- The loop over the direct blocks: what it collected, and whether that is already all.
unfoldable pub direct_loop : ℕ → List ℕ → List ℕ → Bool × List ℕ
direct_loop needed_blocks [] blocks = (false, blocks)
direct_loop needed_blocks (fs_block ∷ rest) blocks =
    let skip = direct_loop needed_blocks rest blocks in
    let blocks' = blocks ++ fs_block ∷ [] in
    let next = direct_loop needed_blocks rest blocks' in
    if fs_block == 0
    then skip
    else if leb needed_blocks (length blocks')
    then (true, take needed_blocks blocks')
    else next

unfoldable pub indirect_loop : Buf → Ufs → ℕ → ℕ → List ℕ → List ℕ → Result (List ℕ)
indirect_loop image ufs needed_blocks levels [] blocks = ok (take needed_blocks blocks)
indirect_loop image ufs needed_blocks levels (root_block ∷ roots) blocks = do
  below ←
      collect_indirect_data_blocks image ufs levels root_block
        (some (needed_blocks - length blocks))
  let blocks' = blocks ++ below
  let next = indirect_loop image ufs needed_blocks (levels + 1) roots blocks'
  if leb needed_blocks (length blocks') then ok (take needed_blocks blocks') else next

-- A block size of 0 would be a panic; `parse` accepts none below 4096.
unfoldable pub needed_blocks_of : Ufs → Inode → ℕ
needed_blocks_of ufs inode = if inode.size == 0 then 0 else div_ceil inode.size ufs.sb.bsize

unfoldable pub inode_data_blocks : Buf → Ufs → Inode → Result (List ℕ)
inode_data_blocks image ufs inode =
    let needed_blocks = needed_blocks_of ufs inode in
    let (all, blocks) = direct_loop needed_blocks inode.direct_blocks [] in
    if all then ok blocks else indirect_loop image ufs needed_blocks 1 inode.indirect_blocks blocks
