-- ===== src/Ufs/Write/Contents.antt =====
-- write.rs: the contents of an inode, replaced as a whole or written in part.
use ufs_fuse.Base.{
  ℕ, ◌+◌, ◌^◌, ◌-◌, ◌*◌, ◌/◌, max, List, [], ◌∷◌, ◌++◌, map, sum, take, drop, reverse, zip,
  unreadable_inode, ltb, ◌==◌, if◌then◌else◌,
}
use ufs_fuse.Core.Image.{Buf, zeroed}
use ufs_fuse.Core.Consts.{sector_size}
use ufs_fuse.Ufs.Superblock.{Ufs, allocation_byte_sizes}
use ufs_fuse.Ufs.Inode.{Inode, read_inode, inode_data_blocks, inode_pointer_blocks}
use ufs_fuse.Ufs.Dir.{same_bytes}
use ufs_fuse.Ufs.Reader.{read_data_range, read_inode_bytes}
use ufs_fuse.Ufs.Alloc.Blocks.{allocate_allocation, free_allocation}
use ufs_fuse.Ufs.Write.Monad.{W, give, reads, computes, or_fail, writes, ◌>>=◌, ◌>>◌}
use ufs_fuse.Ufs.Write.Fields.{as_u32, write_inode_size, write_inode_blocks}
use ufs_fuse.Ufs.Write.Pointers.{build_inode_pointer_structure}
use ufs_fuse.Ufs.Write.Ranges.{
  elements_from, write_chunks, common_allocation_prefix, write_data_range,
}

-- `read_inode(..).ok_or_else(..)?`
unfoldable pub readable_inode : Ufs → ℕ → W Inode
readable_inode ufs inode_number = do
  inode ← reads (λ image. read_inode image ufs inode_number)
  or_fail unreadable_inode inode

-- Free the blocks of a list, each with the size of its allocation.
unfoldable pub free_each : Ufs → List (ℕ × ℕ) → W (Unit {0})
free_each ufs [] = give tt
free_each ufs ((fs_block, allocation_bytes) ∷ rest) = do
  λ image. free_allocation image ufs fs_block allocation_bytes
  free_each ufs rest

-- Allocate one block, or fragments of one, for each size.
unfoldable pub allocate_each : Ufs → ℕ → List ℕ → List ℕ → W (List ℕ)
allocate_each ufs inode_number [] blocks = give blocks
allocate_each ufs inode_number (allocation_bytes ∷ rest) blocks = do
  fs_block ← λ image. allocate_allocation image ufs inode_number allocation_bytes
  allocate_each ufs inode_number rest (blocks ++ fs_block ∷ [])

unfoldable pub free_pointer_blocks : Ufs → Inode → W (Unit {0})
free_pointer_blocks ufs inode = do
  pointer_blocks ← reads (λ image. inode_pointer_blocks image ufs inode)
  free_each ufs (map (λ b. (b, ufs.sb.bsize)) (reverse pointer_blocks))

-- The pointers over `blocks`, and the size and the count of sectors of the inode.
unfoldable pub write_layout : Ufs → ℕ → (blocks sizes : List ℕ) → (size : ℕ) → W (Unit {0})
write_layout ufs inode_number blocks sizes size = do
  new_pointer_block_count ← build_inode_pointer_structure ufs inode_number blocks
  writes (λ image. write_inode_size image ufs inode_number size)
  let data_sectors = sum (map (λ a. a / sector_size) sizes)
  let pointer_sectors = new_pointer_block_count * (ufs.sb.bsize / sector_size)
  writes
      (λ image. write_inode_blocks image ufs inode_number (as_u32 (data_sectors + pointer_sectors)))

-- `size as i64` where `allocation_byte_sizes` takes it: from 2 ^ 63 on it is negative, which that
-- function treats as 0.
abbrev as_i64 : ℕ → ℕ
as_i64 size = if ltb size (2 ^ 63) then size else 0

unfoldable pub set_inode_contents : Ufs → ℕ → Buf → W (Unit {0})
set_inode_contents ufs inode_number new_data = do
  inode ← readable_inode ufs inode_number
  current_data_blocks ← reads (λ image. inode_data_blocks image ufs inode)
  let current_sizes = allocation_byte_sizes ufs.sb (as_i64 inode.size)
  let requested_sizes = allocation_byte_sizes ufs.sb (as_i64 new_data.size)
  free_pointer_blocks ufs inode
  free_each ufs (zip (reverse current_data_blocks) (reverse current_sizes))
  new_blocks ← allocate_each ufs inode_number requested_sizes []
  writes (λ image. write_chunks image ufs new_data 0 (zip new_blocks requested_sizes))
  write_layout ufs inode_number new_blocks requested_sizes new_data.size

unfoldable pub free_inode_contents : Ufs → ℕ → W (Unit {0})
free_inode_contents ufs inode_number = set_inode_contents ufs inode_number (zeroed 0)

-- The two ends of `apply_inode_write`: the blocks stay where they are, or from `prefix` on they are
-- allocated anew.
unfoldable pub write_in_place :
    Ufs → ℕ → (blocks sizes : List ℕ) → (old new offset : ℕ) → Buf → W (Unit {0})
write_in_place ufs inode_number blocks sizes old_size new_size offset source = do
  writes (λ image. write_data_range image ufs blocks sizes offset source)
  if new_size == old_size
      then give tt
      else writes (λ image. write_inode_size image ufs inode_number new_size)

unfoldable pub reallocate_suffix :
    Ufs → ℕ → Inode → (blocks sizes requested : List ℕ) → (new_size offset : ℕ) → Buf → W (Unit {0})
reallocate_suffix ufs inode_number inode blocks sizes requested new_size offset source = do
  let prefix = common_allocation_prefix sizes requested
  old_suffix_blocks ← computes (elements_from blocks prefix)
  suffix_seed ←
      reads (λ image.
        read_data_range image ufs old_suffix_blocks 0 (inode.size - prefix * ufs.sb.bsize))
  free_pointer_blocks ufs inode
  free_each ufs (zip (reverse old_suffix_blocks) (reverse (drop prefix sizes)))
  let new_suffix_sizes = drop prefix requested
  rebuilt ← allocate_each ufs inode_number new_suffix_sizes (take prefix blocks)
  writes (λ image. write_data_range image ufs (drop prefix rebuilt) new_suffix_sizes 0 suffix_seed)
  write_layout ufs inode_number rebuilt requested new_size
  writes (λ image. write_data_range image ufs rebuilt requested offset source)

unfoldable pub apply_inode_write : Ufs → (inode_number offset : ℕ) → Buf → W (Unit {0})
apply_inode_write ufs inode_number offset source = do
  inode ← readable_inode ufs inode_number
  let new_size = max inode.size (offset + source.size)
  blocks ← reads (λ image. inode_data_blocks image ufs inode)
  let sizes = allocation_byte_sizes ufs.sb (as_i64 inode.size)
  let requested = allocation_byte_sizes ufs.sb (as_i64 new_size)
  if same_bytes requested sizes
      then write_in_place ufs inode_number blocks sizes inode.size new_size offset source
      else reallocate_suffix ufs inode_number inode blocks sizes requested new_size offset source

-- `content.resize(size, 0)`
unfoldable pub resize : Buf → ℕ → Buf
resize content size = record {
  size = size;
  byte = λ a. if ltb a content.size then content.byte a else 0;
}

unfoldable pub truncate : Ufs → (inode_number size : ℕ) → W (Unit {0})
truncate ufs inode_number size = do
  inode ← readable_inode ufs inode_number
  let change = (do
    content ← reads (λ image. read_inode_bytes image ufs inode)
    set_inode_contents ufs inode_number (resize content size))
  if inode.size == size then give tt else change
