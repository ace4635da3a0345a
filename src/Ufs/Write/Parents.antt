-- ===== src/Ufs/Write/Parents.antt =====
-- write.rs: the operations of the FUSE daemon, which names a file by its parent inode and its name.
use ufs_fuse.Base.{
  ℕ, ◌*◌, ◌%◌, ◌^◌, ◌-◌, true, false, not, ◌&&◌, none, some, [], ◌∷◌, bit_and, bit_or, panic,
  parent_not_a_directory, does_not_exist, is_a_directory, not_a_directory, not_empty,
  unsupported_type, mixed_types, ◌==◌, if◌then◌else◌,
}
use ufs_fuse.Core.Consts.{ufs_ifmt, ufs_ifdir, ufs_iflnk, ufs_ifchr, ufs_ifblk}
use ufs_fuse.Ufs.Superblock.{Ufs, and_not}
use ufs_fuse.Ufs.Inode.{Inode, read_inode, is_directory}
use ufs_fuse.Ufs.Dir.{same_bytes}
use ufs_fuse.Ufs.Reader.{lookup_directory_entry}
use ufs_fuse.Ufs.Alloc.Inodes.{allocate_inode}
use ufs_fuse.Ufs.Write.Monad.{W, give, reads, computes, or_fail, writes, refuse_if, ◌>>=◌, ◌>>◌}
use ufs_fuse.Ufs.Write.Fields.{
  initialize_inode, write_inode_size, write_inode_blocks, write_block_lists, write_inode_nlink,
  succ_u16,
}
use ufs_fuse.Ufs.Write.Contents.{readable_inode, set_inode_contents}
use ufs_fuse.Ufs.Write.Entries.{String, as_bytes, buf_of}
use ufs_fuse.Ufs.Write.Directory.{
  add_directory_entry, delete_directory_entry, update_directory_dotdot, directory_is_empty,
}
use ufs_fuse.Ufs.Write.Paths.{file_mode, fill_directory, drop_link, drop_directory}

-- The inode of a parent, which must be a directory.
unfoldable pub parent_directory : Ufs → ℕ → W Inode
parent_directory ufs parent_number = do
  parent_inode ← readable_inode ufs parent_number
  refuse_if (not (is_directory parent_inode)) parent_not_a_directory
  give parent_inode

unfoldable pub create_empty_in_parent :
    Ufs → (parent_number : ℕ) → String → (mode uid gid timestamp : ℕ) → W ℕ
create_empty_in_parent ufs parent_number name mode uid gid timestamp = do
  parent_inode ← parent_directory ufs parent_number
  new_number ← λ image. allocate_inode image ufs (some parent_number) false
  writes (λ image. initialize_inode image ufs new_number (file_mode mode) uid gid 1 timestamp)
  add_directory_entry ufs parent_number parent_inode name new_number
  give new_number

unfoldable pub mkdir_in_parent :
    Ufs → (parent_number : ℕ) → String → (mode uid gid timestamp : ℕ) → W ℕ
mkdir_in_parent ufs parent_number name mode uid gid timestamp = do
  parent_inode ← parent_directory ufs parent_number
  new_number ← λ image. allocate_inode image ufs (some parent_number) true
  writes (λ image.
      initialize_inode image ufs new_number (bit_or ufs_ifdir (and_not mode ufs_ifmt)) uid gid 2
        timestamp)
  fill_directory ufs new_number parent_number parent_inode name

unfoldable pub symlink_in_parent :
    Ufs → (parent_number : ℕ) → (name target : String) → (mode uid gid timestamp : ℕ) → W ℕ
symlink_in_parent ufs parent_number name target mode uid gid timestamp = do
  parent_inode ← readable_inode ufs parent_number
  new_number ← λ image. allocate_inode image ufs (some parent_number) false
  writes (λ image.
      initialize_inode image ufs new_number (bit_or ufs_iflnk (and_not mode ufs_ifmt)) uid gid 1
        timestamp)
  set_inode_contents ufs new_number (buf_of (as_bytes target))
  add_directory_entry ufs parent_number parent_inode name new_number
  give new_number

-- The two forms of a device number. The shift of the `u32` drops the bits above 32.
unfoldable pub old_device : (major minor : ℕ) → ℕ
old_device major minor = bit_or (bit_and major 0x7F * 2 ^ 8) (bit_and minor 0xFF)

unfoldable pub expanded_device : (major minor : ℕ) → ℕ
expanded_device major minor = bit_or (major * 2 ^ 18 % 2 ^ 32) minor

unfoldable pub mknod_in_parent :
    Ufs → (parent_number : ℕ) → String → (file_type major minor mode uid gid timestamp : ℕ) → W ℕ
mknod_in_parent ufs parent_number name file_type major minor mode uid gid timestamp = do
  refuse_if (not (file_type == ufs_ifchr) && not (file_type == ufs_ifblk)) unsupported_type
  parent_inode ← parent_directory ufs parent_number
  new_number ← λ image. allocate_inode image ufs (some parent_number) false
  writes (λ image.
      initialize_inode image ufs new_number (bit_or file_type (and_not mode ufs_ifmt)) uid gid 1
        timestamp)
  writes (λ image. write_inode_size image ufs new_number 0)
  writes (λ image. write_inode_blocks image ufs new_number 0)
  writes (λ image.
      write_block_lists image ufs new_number
        (old_device major minor ∷ expanded_device major minor ∷ []) (0 ∷ 0 ∷ 0 ∷ []))
  add_directory_entry ufs parent_number parent_inode name new_number
  give new_number

unfoldable pub link_in_parent :
    Ufs → (parent_number : ℕ) → String → (target_number : ℕ) → W (Unit {0})
link_in_parent ufs parent_number name target_number = do
  parent_inode ← readable_inode ufs parent_number
  target_inode ← readable_inode ufs target_number
  refuse_if (is_directory target_inode) is_a_directory
  add_directory_entry ufs parent_number parent_inode name target_number
  nlink ← computes (succ_u16 target_inode.nlink)
  writes (λ image. write_inode_nlink image ufs target_number nlink)

unfoldable pub named : Ufs → Inode → String → W (ℕ × Inode)
named ufs parent_inode name = do
  found ← reads (λ image. lookup_directory_entry image ufs parent_inode (as_bytes name))
  or_fail does_not_exist found

unfoldable pub unlink_in_parent : Ufs → (parent_number : ℕ) → String → W ℕ
unlink_in_parent ufs parent_number name = do
  parent_inode ← readable_inode ufs parent_number
  (target_number, target_inode) ← named ufs parent_inode name
  refuse_if (is_directory target_inode) is_a_directory
  delete_directory_entry ufs parent_inode name
  drop_link ufs target_number target_inode
  give target_number

unfoldable pub rmdir_in_parent : Ufs → (parent_number : ℕ) → String → W ℕ
rmdir_in_parent ufs parent_number name = do
  parent_inode ← readable_inode ufs parent_number
  (target_number, target_inode) ← named ufs parent_inode name
  refuse_if (not (is_directory target_inode)) not_a_directory
  empty ← reads (λ image. directory_is_empty image ufs target_inode)
  refuse_if (not empty) not_empty
  drop_directory ufs parent_number parent_inode name target_number

-- `read_inode(..).unwrap()`
unfoldable pub read_again : Ufs → ℕ → W Inode
read_again ufs inode_number = do
  inode ← reads (λ image. read_inode image ufs inode_number)
  elim inode [ none ↦ computes panic | some i ↦ give i ]

-- A directory that moves to another parent: its `..`, and the links of both parents.
unfoldable pub move_directory : Ufs → (src_number src_parent dst_parent : ℕ) → W (Unit {0})
move_directory ufs src_number src_parent dst_parent = do
  src_inode ← read_again ufs src_number
  update_directory_dotdot ufs src_inode dst_parent
  sp ← read_again ufs src_parent
  writes (λ image. write_inode_nlink image ufs src_parent (sp.nlink - 1))
  dp ← read_again ufs dst_parent
  nlink ← computes (succ_u16 dp.nlink)
  writes (λ image. write_inode_nlink image ufs dst_parent nlink)

-- What follows once the target's name is free.
unfoldable pub move_entry :
    Ufs
    → (src_parent : ℕ) → String
    → (dst_parent : ℕ) → String
    → (src_number : ℕ) → Inode
    → W (Unit {0})
move_entry ufs src_parent src_name dst_parent dst_name src_number src_inode = do
  dst_parent_inode ← read_again ufs dst_parent
  add_directory_entry ufs dst_parent dst_parent_inode dst_name src_number
  if is_directory src_inode && not (src_parent == dst_parent)
      then move_directory ufs src_number src_parent dst_parent
      else give tt
  src_parent_inode ← read_again ufs src_parent
  delete_directory_entry ufs src_parent_inode src_name

-- A target that is there is removed, if it is of the same kind.
unfoldable pub replace_target : Ufs → Inode → (dst_parent : ℕ) → String → Inode → W (Unit {0})
replace_target ufs src_inode dst_parent dst_name dst_inode = do
  refuse_if
      (if is_directory src_inode then not (is_directory dst_inode) else is_directory dst_inode)
      mixed_types
  if is_directory dst_inode
      then (rmdir_in_parent ufs dst_parent dst_name >>= λ _. give tt)
      else (unlink_in_parent ufs dst_parent dst_name >>= λ _. give tt)

unfoldable pub rename_in_parent :
    Ufs → (src_parent : ℕ) → String → (dst_parent : ℕ) → String → W (Unit {0})
rename_in_parent ufs src_parent src_name dst_parent dst_name =
    let rename = (do
      src_parent_inode ← readable_inode ufs src_parent
      (src_number, src_inode) ← named ufs src_parent_inode src_name
      dst_parent_inode ← readable_inode ufs dst_parent
      found ← reads (λ image. lookup_directory_entry image ufs dst_parent_inode (as_bytes dst_name))
      let finish = move_entry ufs src_parent src_name dst_parent dst_name src_number src_inode
      elim found [
        | none ↦ finish
        | some t ↦
            if t.0 == src_number
            then give tt
            else replace_target ufs src_inode dst_parent dst_name t.1 >> finish
      ]) in
    if (src_parent == dst_parent) && same_bytes src_name dst_name then give tt else rename
