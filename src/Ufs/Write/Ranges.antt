-- ===== src/Ufs/Write/Ranges.antt =====
-- write.rs: bytes written to blocks that are there.
use ufs_fuse.Base.{
  ℕ, zero, suc, ◌+◌, ◌-◌, ◌*◌, ◌/◌, ◌%◌, Bool, not, none, some, List, [], ◌∷◌, get_elem?, length,
  drop, min, Result, ok, panic, ◌>>=◌, leb, ◌==◌, if◌then◌else◌,
}
use ufs_fuse.Core.Image.{Buf, slice, write_at, fill_zero}
use ufs_fuse.Ufs.Superblock.{Ufs, data_block_offset}
use ufs_fuse.Ufs.Bitmap.{div_ceil}
use ufs_fuse.Ufs.Dir.{list_from, same_bytes}

-- `xs[i]` and `xs[i..]`
unfoldable pub element : List ℕ → ℕ → Result ℕ
element xs i = elim (get_elem? xs i) [ none ↦ panic | some x ↦ ok x ]

unfoldable pub elements_from : List ℕ → ℕ → Result (List ℕ)
elements_from xs i = if leb i (length xs) then ok (drop i xs) else panic

-- The loop of `set_inode_contents` over the new blocks, each with the size of its allocation; the data
-- are those of `new_data` from `at` on. The rest of an allocation is filled with 0.
unfoldable pub write_chunks : Buf → Ufs → Buf → (at : ℕ) → List (ℕ × ℕ) → Result Buf
write_chunks image ufs new_data at [] = ok image
write_chunks image ufs new_data at ((fs_block, allocation_bytes) ∷ rest) = do
  block_offset ← data_block_offset ufs.sb ufs.start_offset fs_block
  let n = min (new_data.size - at) ufs.sb.bsize
  chunk ← slice new_data at (at + n)
  image ← write_at image block_offset chunk
  image ← fill_zero image (block_offset + n) (block_offset + allocation_bytes)
  write_chunks image ufs new_data (at + n) rest

unfoldable pub common_allocation_prefix : List ℕ → List ℕ → ℕ
common_allocation_prefix [] requested = 0
common_allocation_prefix (c ∷ current) [] = 0
common_allocation_prefix (c ∷ current) (r ∷ requested) =
    if c == r then suc (common_allocation_prefix current requested) else 0

-- `for block_index in start_block..end_block`, with `n` rounds left.
unfoldable pub write_range_loop :
    Buf
    → Ufs
    → (data_blocks allocation_sizes : List ℕ) → (offset : ℕ) → Buf
    → (n block_index : ℕ) → Result Buf
write_range_loop image ufs data_blocks allocation_sizes offset source zero block_index = ok image
write_range_loop image ufs data_blocks allocation_sizes offset source (suc n) block_index = do
  fs_block ← element data_blocks block_index
  allocation_bytes ← element allocation_sizes block_index
  let logical_start = block_index * ufs.sb.bsize
  let inner_start = offset - logical_start
  let inner_end = min (min ufs.sb.bsize (offset + source.size - logical_start)) allocation_bytes
  let copy : Result Buf = (do
    chunk ← slice source (logical_start + inner_start - offset) (logical_start + inner_end - offset)
    backing ← data_block_offset ufs.sb ufs.start_offset fs_block
    write_at image (backing + inner_start) chunk)
  image ← if leb inner_end inner_start then ok image else copy
  write_range_loop image ufs data_blocks allocation_sizes offset source n (block_index + 1)

unfoldable pub write_data_range :
    Buf → Ufs → (data_blocks allocation_sizes : List ℕ) → (offset : ℕ) → Buf → Result Buf
write_data_range image ufs data_blocks allocation_sizes offset source =
    let start_block = offset / ufs.sb.bsize in
    let end_block =
      min (min (length data_blocks) (length allocation_sizes))
        (div_ceil (offset + source.size) ufs.sb.bsize) in
    if source.size == 0
    then ok image
    else write_range_loop image ufs data_blocks allocation_sizes offset source
        (end_block - start_block) start_block

-- `image[backing + inner..][..updated.len()].copy_from_slice(&updated)`, where place `offset` of a file
-- stands.
unfoldable pub write_directory_bytes :
    Ufs → (data_blocks : List ℕ) → (offset : ℕ) → Buf → Buf → Result Buf
write_directory_bytes ufs data_blocks offset updated image = do
  fs_block ← element data_blocks (offset / ufs.sb.bsize)
  backing ← data_block_offset ufs.sb ufs.start_offset fs_block
  write_at image (backing + offset % ufs.sb.bsize) updated

-- `a[offset..end] != b[offset..end]`
unfoldable pub differs : Buf → Buf → (offset end : ℕ) → Result Bool
differs a b offset end = do
  x ← slice a offset end
  y ← slice b offset end
  ok (not (same_bytes (list_from x.byte x.size 0) (list_from y.byte y.size 0)))
