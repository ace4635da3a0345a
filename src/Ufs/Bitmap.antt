-- ===== src/Ufs/Bitmap.antt =====
-- crates/svr4-ufs/src/alloc.rs, the bitmap accessors: the free map of fragments and the map of used
-- inodes of a cylinder group, one bit each, the lowest bit of a byte first.
pub mod Bits
pub mod Laws
use ufs_fuse.Base.{
  ℕ, zero, suc, ◌+◌, ◌-◌, ◌*◌, ◌/◌, ◌%◌, ◌^◌, Bool, true, not, Result, ok, check, ltb, leb, ◌&&◌,
  ◌>>◌, ◌>>=◌, ◌==◌, if◌then◌else◌, bit_and, bit_or,
}
use ufs_fuse.Core.Image.{Buf, get, set}
use ufs_fuse.Core.Consts.{nbby, ufs_cg_free_offset, ufs_cg_iused_offset}

-- `(byte & (1 << k)) != 0`
unfoldable pub test_bit : ℕ → ℕ → Bool
test_bit byte k = not (bit_and byte (2 ^ k) == 0)

-- `byte | mask` and `byte & !mask` of a `u8`
unfoldable pub with_bit : ℕ → ℕ → Bool → ℕ
with_bit byte k on = if on then bit_or byte (2 ^ k) else bit_and byte (255 - 2 ^ k)

-- The two maps differ only in the offset at which they begin.
unfoldable pub get_state : ℕ → Buf → ℕ → Result Bool
get_state map cg index = do byte ← get cg (map + index / nbby); ok (test_bit byte (index % nbby))

unfoldable pub set_state : ℕ → Buf → ℕ → Bool → Result Buf
set_state map cg index on = do
  byte ← get cg (map + index / nbby)
  set cg (map + index / nbby) (with_bit byte (index % nbby) on)

unfoldable pub is_frag_free : Buf → ℕ → Result Bool
unfolding get_state
is_frag_free cg frag_index = get_state ufs_cg_free_offset cg frag_index

unfoldable pub set_frag_state : Buf → ℕ → Bool → Result Buf
unfolding set_state
set_frag_state cg frag_index free = set_state ufs_cg_free_offset cg frag_index free

unfoldable pub is_inode_used : Buf → ℕ → Result Bool
unfolding get_state
is_inode_used cg inode_index = get_state ufs_cg_iused_offset cg inode_index

unfoldable pub set_inode_state : Buf → ℕ → Bool → Result Buf
unfolding set_state
set_inode_state cg inode_index used = set_state ufs_cg_iused_offset cg inode_index used

-- The loop of `_frag_block_free_bits` over the bytes that the window covers, from byte `i` on.
unfoldable pub window_loop : Buf → ℕ → ℕ → ℕ → ℕ → Result ℕ
unfolding get
window_loop cg byte_offset i zero window = ok window
window_loop cg byte_offset i (suc n) window = do
  b ← get cg (byte_offset + i)
  window_loop cg byte_offset (i + 1) n (bit_or window (b * 2 ^ (8 * i)))

-- `value.div_ceil(n)`
abbrev pub div_ceil : ℕ → ℕ → ℕ
div_ceil value n = (value + n - 1) / n

-- A shift of the `u64` by 64 or more is a panic: the window has at most 64 bits.
unfoldable pub frag_block_free_bits : Buf → ℕ → ℕ → Result ℕ
unfolding window_loop
frag_block_free_bits cg frag_index frags_per_block =
    let bit_offset = frag_index % nbby in
    let byte_offset = ufs_cg_free_offset + frag_index / nbby in
    let bits_to_cover = bit_offset + frags_per_block in
    if frags_per_block == 0 then ok 0 else (do
      check (ltb frags_per_block 64 && leb bits_to_cover 64)
      window ← window_loop cg byte_offset 0 (div_ceil bits_to_cover nbby) 0
      ok (bit_and (window / 2 ^ bit_offset) (2 ^ frags_per_block - 1)))
