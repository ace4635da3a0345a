-- ===== src/Ufs/Alloc/Blocks.antt =====
-- `allocate_block`, `allocate_fragments`, `free_block` and `free_allocation`.
use ufs_fuse.Base.{
  ℕ, zero, suc, ◌+◌, ◌-◌, ◌/◌, ◌%◌, Bool, true, false, ◌||◌, Option, none, some, Result, ok, panic,
  ◌>>=◌, Reply, done, failed, Error, invalid_cg, no_free_blocks, no_free_fragments,
  invalid_fragment_request, size_not_positive, leb, ◌==◌, if◌then◌else◌, pos, negsuc,
}
use ufs_fuse.Core.Image.{Buf, fill_zero}
use ufs_fuse.Core.Codec.{u32}
use ufs_fuse.Core.Consts.{ufs_cg_magic, ufs_cg_magic_offset, ufs_cg_ndblk_offset}
use ufs_fuse.Ufs.Superblock.{Ufs, itog, cgbase, cgdmin, data_block_offset, i64}
use ufs_fuse.Ufs.Bitmap.{is_frag_free}
use ufs_fuse.Ufs.Alloc.Group.{
  read_cg_block, write_cg_block, read_allocatable_cg_block, set_frag_run, adjust_cg_free_blocks,
  adjust_superblock_free_blocks,
}

-- `(0..n).all(|o| is_frag_free(cg, frag_index + o))`
unfoldable pub is_run_free : Buf → ℕ → ℕ → Result Bool
is_run_free cg frag_index zero = ok true
is_run_free cg frag_index (suc n) =
    let next = is_run_free cg (frag_index + 1) n in
    is_frag_free cg frag_index >>= λ free. if free then next else ok false

-- The inner loop, on fuel: the first block that is free as a whole. A round that finds none moves on by
-- `frags_per_block`, which is then not 0, so that the fuel does not run out.
unfoldable pub find_free_run : Buf → (frags_per_block cg_ndblk : ℕ) → ℕ → ℕ → Result (Option ℕ)
find_free_run cg frags_per_block cg_ndblk zero frag_index = panic
find_free_run cg frags_per_block cg_ndblk (suc fuel) frag_index =
    let next = find_free_run cg frags_per_block cg_ndblk fuel (frag_index + frags_per_block) in
    let step = do
      free ← is_run_free cg frag_index frags_per_block
      if free then ok (some frag_index) else next
    in if leb (frag_index + frags_per_block) cg_ndblk then step else ok none

-- What is written once the place is chosen: `frags` fragments are taken, and `bytes` bytes zeroed.
unfoldable pub take_run : Buf → Ufs → ℕ → Buf → (frag_index frags bytes : ℕ) → Result (ℕ × Buf)
take_run image ufs cg cg_bytes frag_index frags bytes = do
  b ← set_frag_run cg_bytes frag_index frags false
  b ← adjust_cg_free_blocks b (negsuc 0)
  image ← write_cg_block image ufs cg b
  image ← adjust_superblock_free_blocks image ufs (negsuc 0)
  base ← cgbase ufs.sb cg
  fs_block ← i64 (base + frag_index)
  block_offset ← data_block_offset ufs.sb ufs.start_offset fs_block
  image ← fill_zero image block_offset (block_offset + bytes)
  ok (fs_block, image)

-- One round of the loop over the groups. `cgdmin % fpg`: `fpg` is not 0 in what `parse` accepts.
unfoldable pub try_run : Buf → Ufs → ℕ → (frags bytes : ℕ) → Result (Option ℕ × Buf)
try_run image ufs cg frags bytes = do
  (cg_bytes, image) ← read_allocatable_cg_block image ufs cg
  magic ← u32 cg_bytes ufs_cg_magic_offset
  let attempt = do
    cg_ndblk ← u32 cg_bytes ufs_cg_ndblk_offset
    first ← cgdmin ufs.sb cg
    found ← find_free_run cg_bytes ufs.sb.frag cg_ndblk (cg_ndblk + 2) (first % ufs.sb.fpg)
    elim found [
      | none ↦ ok (none, image)
      | some frag_index ↦ do
        (fs_block, image) ← take_run image ufs cg cg_bytes frag_index frags bytes
        ok (some fs_block, image)
    ]
  if magic == ufs_cg_magic then attempt else ok (none, image)

-- `for attempt in 0..total_cg`, with `n` rounds left.
unfoldable pub run_loop :
    Error → Buf → Ufs → (start_cg frags bytes : ℕ) → ℕ → ℕ → Result (Reply ℕ × Buf)
run_loop e image ufs start_cg frags bytes zero attempt = ok (failed e, image)
run_loop e image ufs start_cg frags bytes (suc n) attempt = do
  (found, image) ← try_run image ufs ((start_cg + attempt) % ufs.sb.ncg) frags bytes
  let next = run_loop e image ufs start_cg frags bytes n (attempt + 1)
  elim found [ none ↦ next | some fs_block ↦ ok (done fs_block, image) ]

unfoldable pub allocate_block : Buf → Ufs → ℕ → Result (Reply ℕ × Buf)
allocate_block image ufs inode_number =
    run_loop no_free_blocks image ufs (itog ufs.sb inode_number) ufs.sb.frag ufs.sb.bsize ufs.sb.ncg
      0

-- `fsize` is not 0 in what `parse` accepts.
unfoldable pub allocate_fragments : Buf → Ufs → ℕ → ℕ → Result (Reply ℕ × Buf)
allocate_fragments image ufs inode_number allocation_bytes =
    let frags_needed = allocation_bytes / ufs.sb.fsize in
    if (frags_needed == 0) || leb ufs.sb.bsize allocation_bytes
    then ok (failed invalid_fragment_request, image)
    else run_loop no_free_fragments image ufs (itog ufs.sb inode_number) frags_needed
        allocation_bytes ufs.sb.ncg 0

unfoldable pub allocate_allocation : Buf → Ufs → ℕ → ℕ → Result (Reply ℕ × Buf)
allocate_allocation image ufs inode_number allocation_bytes =
    if allocation_bytes == 0
    then ok (failed size_not_positive, image)
    else if allocation_bytes == ufs.sb.bsize
    then allocate_block image ufs inode_number
    else allocate_fragments image ufs inode_number allocation_bytes

unfoldable pub free_block : Buf → Ufs → ℕ → Result (Reply (Unit {0}) × Buf)
free_block image ufs fs_block = do
  let cg = fs_block / ufs.sb.fpg
  let frag_index = fs_block % ufs.sb.fpg
  cg_bytes ← read_cg_block image ufs cg
  magic ← u32 cg_bytes ufs_cg_magic_offset
  let release = do
    b ← set_frag_run cg_bytes frag_index ufs.sb.frag true
    b ← adjust_cg_free_blocks b (pos 1)
    image1 ← write_cg_block image ufs cg b
    image2 ← adjust_superblock_free_blocks image1 ufs (pos 1)
    ok (done tt, image2)
  if magic == ufs_cg_magic then release else ok (failed invalid_cg, image)

-- A run of fragments: a block that becomes free as a whole is counted again. The source divides by
-- `frag`; where that is 0 it panics.
unfoldable pub free_fragments : Buf → Ufs → ℕ → ℕ → Result (Reply (Unit {0}) × Buf)
free_fragments image ufs fs_block allocation_bytes = do
  let cg = fs_block / ufs.sb.fpg
  let frag_index = fs_block % ufs.sb.fpg
  cg_bytes ← read_cg_block image ufs cg
  magic ← u32 cg_bytes ufs_cg_magic_offset
  let release = do
    b ← set_frag_run cg_bytes frag_index (allocation_bytes / ufs.sb.fsize) true
    whole ← is_run_free b (frag_index - frag_index % ufs.sb.frag) ufs.sb.frag
    let count = do
      b' ← adjust_cg_free_blocks b (pos 1)
      image' ← adjust_superblock_free_blocks image ufs (pos 1)
      ok (b', image')
    (b, image) ← if whole then count else ok (b, image)
    image ← write_cg_block image ufs cg b
    ok (done tt, image)
  let checked = if ufs.sb.frag == 0 then panic else release
  if magic == ufs_cg_magic then checked else ok (failed invalid_cg, image)

unfoldable pub free_allocation : Buf → Ufs → ℕ → ℕ → Result (Reply (Unit {0}) × Buf)
free_allocation image ufs fs_block allocation_bytes =
    if allocation_bytes == 0
    then ok (done tt, image)
    else if allocation_bytes == ufs.sb.bsize
    then free_block image ufs fs_block
    else free_fragments image ufs fs_block allocation_bytes
