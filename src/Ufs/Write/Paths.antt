-- ===== src/Ufs/Write/Paths.antt =====
-- write.rs: the operations that name a file by its path.
use ufs_fuse.Base.{
  ℕ, ◌-◌, Bool, true, false, not, Option, none, some, List, [], ◌∷◌, ◌++◌, bit_and, bit_or, Error,
  unresolved_path, parent_not_a_directory, already_exists, does_not_exist, is_a_directory,
  not_a_directory, not_empty, root_refused, ltb, ◌==◌, if◌then◌else◌,
}
use ufs_fuse.Core.Image.{Buf}
use ufs_fuse.Core.Consts.{ufs_ifmt, ufs_ifreg, ufs_ifdir, ufs_iflnk}
use ufs_fuse.Ufs.Superblock.{Ufs, and_not}
use ufs_fuse.Ufs.Inode.{Inode, is_directory}
use ufs_fuse.Ufs.Dir.{same_bytes}
use ufs_fuse.Ufs.Reader.{path_parts, resolve_path, lookup_directory_entry}
use ufs_fuse.Ufs.Alloc.Inodes.{allocate_inode, free_inode}
use ufs_fuse.Ufs.Write.Monad.{W, give, reads, computes, or_fail, writes, refuse_if, ◌>>=◌, ◌>>◌}
use ufs_fuse.Ufs.Write.Fields.{clear_inode, initialize_inode, write_inode_nlink, succ_u16}
use ufs_fuse.Ufs.Write.Contents.{set_inode_contents, free_inode_contents}
use ufs_fuse.Ufs.Write.Entries.{String, as_bytes, buf_of, build_directory_block}
use ufs_fuse.Ufs.Write.Directory.{add_directory_entry, delete_directory_entry, directory_is_empty}

-- All parts but the last joined by `/`, and the last part; both empty where there is none.
unfoldable pub split_parts : List String → String × String
split_parts [] = ([], [])
split_parts (part ∷ []) = ([], part)
split_parts (part ∷ q ∷ parts) =
    let (parent, name) = split_parts (q ∷ parts) in
    (elim parts [ [] ↦ part | _ ∷ _ ↦ part ++ 47 ∷ parent ], name)

unfoldable pub split_parent : String → String × String
split_parent path = split_parts (path_parts [] path)

unfoldable pub resolved : Error → Ufs → String → W (ℕ × Inode)
resolved e ufs path = do
  found ← reads (λ image. resolve_path image ufs (as_bytes path))
  or_fail e found

unfoldable pub is_some : Option (ℕ × Inode) → Bool
is_some none = false
is_some (some a) = true

unfoldable pub resolve_creation_parent : Ufs → String → W (String × ℕ × Inode)
resolve_creation_parent ufs target_path = do
  let (parent_path, entry_name) = split_parent target_path
  (parent_number, parent_inode) ← resolved unresolved_path ufs parent_path
  refuse_if (not (is_directory parent_inode)) parent_not_a_directory
  there ← reads (λ image. lookup_directory_entry image ufs parent_inode (as_bytes entry_name))
  refuse_if (is_some there) already_exists
  give (entry_name, parent_number, parent_inode)

unfoldable pub resolve_removal_parent : Ufs → String → W (String × ℕ × Inode)
resolve_removal_parent ufs target_path = do
  let (parent_path, entry_name) = split_parent target_path
  (parent_number, parent_inode) ← resolved unresolved_path ufs parent_path
  give (entry_name, parent_number, parent_inode)

-- The type and permission bits of a new file: a regular one, unless `mode` carries a type.
unfoldable pub file_mode : ℕ → ℕ
file_mode mode =
    bit_or (if bit_and mode ufs_ifmt == 0 then ufs_ifreg else bit_and mode ufs_ifmt)
      (and_not mode ufs_ifmt)

unfoldable pub create_file : Ufs → String → Buf → (mode uid gid timestamp : ℕ) → W ℕ
create_file ufs target_path file_bytes mode uid gid timestamp = do
  (entry_name, parent_number, parent_inode) ← resolve_creation_parent ufs target_path
  new_number ← λ image. allocate_inode image ufs (some parent_number) false
  writes (λ image. initialize_inode image ufs new_number (file_mode mode) uid gid 1 timestamp)
  if file_bytes.size == 0 then give tt else set_inode_contents ufs new_number file_bytes
  add_directory_entry ufs parent_number parent_inode entry_name new_number
  give new_number

-- The `.` and `..` of a new directory, its entry, and the link of its parent.
unfoldable pub fill_directory : Ufs → (new_number parent_number : ℕ) → Inode → String → W ℕ
fill_directory ufs new_number parent_number parent_inode name = do
  block ← computes (build_directory_block new_number parent_number)
  set_inode_contents ufs new_number block
  add_directory_entry ufs parent_number parent_inode name new_number
  nlink ← computes (succ_u16 parent_inode.nlink)
  writes (λ image. write_inode_nlink image ufs parent_number nlink)
  give new_number

unfoldable pub make_directory : Ufs → String → (mode uid gid timestamp : ℕ) → W ℕ
make_directory ufs target_path mode uid gid timestamp = do
  (entry_name, parent_number, parent_inode) ← resolve_creation_parent ufs target_path
  new_number ← λ image. allocate_inode image ufs (some parent_number) true
  writes (λ image.
      initialize_inode image ufs new_number (bit_or ufs_ifdir (and_not mode ufs_ifmt)) uid gid 2
        timestamp)
  fill_directory ufs new_number parent_number parent_inode entry_name

unfoldable pub link : Ufs → (source_path target_path : String) → W ℕ
link ufs source_path target_path = do
  (source_number, source_inode) ← resolved does_not_exist ufs source_path
  refuse_if (is_directory source_inode) is_a_directory
  (entry_name, parent_number, parent_inode) ← resolve_creation_parent ufs target_path
  add_directory_entry ufs parent_number parent_inode entry_name source_number
  nlink ← computes (succ_u16 source_inode.nlink)
  writes (λ image. write_inode_nlink image ufs source_number nlink)
  give source_number

unfoldable pub symlink : Ufs → (target link_path : String) → (mode uid gid timestamp : ℕ) → W ℕ
symlink ufs target link_path mode uid gid timestamp =
    create_file ufs link_path (buf_of (as_bytes target)) (bit_or ufs_iflnk mode) uid gid timestamp

-- The contents and the inode are freed.
unfoldable pub destroy : Ufs → ℕ → (directory : Bool) → W (Unit {0})
destroy ufs number directory = do
  free_inode_contents ufs number
  writes (λ image. clear_inode image ufs number)
  λ image. free_inode image ufs number directory

-- One link less, or the end of the inode with its last link.
unfoldable pub drop_link : Ufs → ℕ → Inode → W (Unit {0})
drop_link ufs number inode =
    if ltb 1 inode.nlink
    then writes (λ image. write_inode_nlink image ufs number (inode.nlink - 1))
    else destroy ufs number false

unfoldable pub unlink : Ufs → String → W ℕ
unlink ufs target_path = do
  refuse_if (same_bytes target_path (47 ∷ [])) root_refused
  (target_number, target_inode) ← resolved does_not_exist ufs target_path
  refuse_if (is_directory target_inode) is_a_directory
  (entry_name, parent_number, parent_inode) ← resolve_removal_parent ufs target_path
  delete_directory_entry ufs parent_inode entry_name
  drop_link ufs target_number target_inode
  give target_number

-- The entry of a directory goes, with the link that it had to its parent, and the directory itself.
unfoldable pub drop_directory : Ufs → (parent_number : ℕ) → Inode → String → ℕ → W ℕ
drop_directory ufs parent_number parent_inode name target_number = do
  delete_directory_entry ufs parent_inode name
  writes (λ image. write_inode_nlink image ufs parent_number (parent_inode.nlink - 1))
  destroy ufs target_number true
  give target_number

unfoldable pub remove_directory : Ufs → String → W ℕ
remove_directory ufs target_path = do
  refuse_if (same_bytes target_path (47 ∷ [])) root_refused
  (target_number, target_inode) ← resolved does_not_exist ufs target_path
  refuse_if (not (is_directory target_inode)) not_a_directory
  empty ← reads (λ image. directory_is_empty image ufs target_inode)
  refuse_if (not empty) not_empty
  (entry_name, parent_number, parent_inode) ← resolve_removal_parent ufs target_path
  drop_directory ufs parent_number parent_inode entry_name target_number
