-- ===== src/Ufs/Alloc/Counting.antt =====
-- What `expected_cg_header` counts in the maps of a group, and the helpers that it counts with.
use ufs_fuse.Base.{
  ℕ, zero, suc, ◌+◌, ◌-◌, ◌*◌, ◌/◌, ◌%◌, Bool, true, false, ◌||◌, ◌&&◌, Option, none, some, List,
  [], ◌∷◌, length, Result, ok, panic, ◌>>=◌, ltb, leb, ◌==◌, if◌then◌else◌,
}
use ufs_fuse.Core.Image.{Buf}
use ufs_fuse.Core.Consts.{maxcpg, nrpos, ufs_csum_size}
use ufs_fuse.Ufs.Superblock.{Ufs, fsbtobytes, i64}
use ufs_fuse.Ufs.Bitmap.{test_bit, is_frag_free, is_inode_used, frag_block_free_bits}
use ufs_fuse.Ufs.Inode.{read_inode, is_directory}

unfoldable pub cbtocylno : Ufs → ℕ → ℕ
cbtocylno ufs frag_base =
    if (ufs.sb.spc == 0) || (ufs.sb.nspf == 0) then 0 else frag_base * ufs.sb.nspf / ufs.sb.spc

unfoldable pub cbtorpos : Ufs → ℕ → ℕ
cbtorpos ufs frag_base =
    if (ufs.sb.spc == 0) || ((ufs.sb.nsect == 0) || (ufs.sb.nspf == 0))
    then 0
    else frag_base * ufs.sb.nspf % ufs.sb.spc % ufs.sb.nsect * nrpos / ufs.sb.nsect

-- `values[i] += 1`
unfoldable pub increment : List ℕ → ℕ → List ℕ
increment [] i = []
increment (v ∷ vs) zero = (v + 1) ∷ vs
increment (v ∷ vs) (suc i) = v ∷ increment vs i

-- At the end of a run of free fragments.
unfoldable pub close_run : ℕ → List ℕ → List ℕ
close_run run_length frsum =
    if ltb 0 run_length && ltb run_length (length frsum) then increment frsum run_length else frsum

unfoldable pub account_run_loop : List Bool → ℕ → List ℕ → List ℕ
account_run_loop [] run_length frsum = close_run run_length frsum
account_run_loop (true ∷ flags) run_length frsum = account_run_loop flags (run_length + 1) frsum
account_run_loop (false ∷ flags) run_length frsum =
    account_run_loop flags 0 (close_run run_length frsum)

unfoldable pub account_fragment_run : List Bool → List ℕ → List ℕ
account_fragment_run free_flags frsum = account_run_loop free_flags 0 frsum

unfoldable pub csum_offset : Ufs → ℕ → Result (Option ℕ)
csum_offset ufs cg =
    let found = do
      bytes ← fsbtobytes ufs.sb ufs.sb.csaddr
      offset ← i64 (ufs.start_offset + bytes + cg * ufs_csum_size)
      ok (some offset)
    in if (ufs.sb.csaddr == 0) || ltb ufs.sb.cssize ((cg + 1) * ufs_csum_size)
      then ok none
      else found

unfoldable pub count_true : List Bool → ℕ
count_true [] = 0
count_true (true ∷ bs) = count_true bs + 1
count_true (false ∷ bs) = count_true bs

-- The bits of a number, `n` of them from bit `o` on.
unfoldable pub bits_of : ℕ → ℕ → ℕ → List Bool
bits_of bits zero o = []
bits_of bits (suc n) o = test_bit bits o ∷ bits_of bits n (o + 1)

-- The loop over the inodes of a group: how many are in use, the reserved ones aside, and how many of
-- these are directories.
unfoldable pub count_inodes : Buf → Ufs → ℕ → Buf → ℕ → ℕ → ℕ × ℕ → Result (ℕ × ℕ)
count_inodes image ufs cg cg_bytes zero inode_index (used, ndir) = ok (used, ndir)
count_inodes image ufs cg cg_bytes (suc n) inode_index (used, ndir) =
    let next = λ (t : ℕ × ℕ). count_inodes image ufs cg cg_bytes n (inode_index + 1) t in
    let look = do
      in_use ← is_inode_used cg_bytes inode_index
      let count = do
        inode ← read_inode image ufs (cg * ufs.sb.ipg + inode_index)
        let directory : ℕ = elim inode [ none ↦ 0 | some i ↦ if is_directory i then 1 else 0 ]
        next (used + 1, ndir + directory)
      if in_use then count else next (used, ndir)
    in if (cg == 0) && ltb inode_index 2 then next (used, ndir) else look

-- The counts of the loop over the blocks of a group.
pub record BlockCounts : Type 0 where
  pub nbfree : ℕ
  pub nffree : ℕ
  pub frsum : List ℕ
  pub btot : List ℕ
  pub bpos : List ℕ

-- What one block of fragments adds.
unfoldable pub count_block : Ufs → ℕ → ℕ → BlockCounts → BlockCounts
count_block ufs frag_base free_bits t =
    let flags = bits_of free_bits ufs.sb.frag 0 in
    let free_fragments = count_true flags in
    let cyl = cbtocylno ufs frag_base in
    let rpos = cbtorpos ufs frag_base in
    let in_range = ltb cyl maxcpg && ltb rpos nrpos in
    if free_fragments == ufs.sb.frag
    then record t {
      nbfree = t.nbfree + 1;
      btot = if in_range then increment t.btot cyl else t.btot;
      bpos = if in_range then increment t.bpos (cyl * nrpos + rpos) else t.bpos;
    }
    else if ltb 0 free_fragments
    then record t { nffree = t.nffree + free_fragments; frsum = account_fragment_run flags t.frsum }
    else t

-- The loop over the whole blocks, on fuel; with `frag == 0` the source does not leave it, and otherwise
-- the fuel does not run out.
unfoldable pub count_blocks : Ufs → Buf → ℕ → ℕ → ℕ → BlockCounts → Result (ℕ × BlockCounts)
count_blocks ufs cg_bytes cg_ndblk zero frag_base t = panic
count_blocks ufs cg_bytes cg_ndblk (suc fuel) frag_base t =
    let step = do
      free_bits ← frag_block_free_bits cg_bytes frag_base ufs.sb.frag
      count_blocks ufs cg_bytes cg_ndblk fuel (frag_base + ufs.sb.frag)
          (count_block ufs frag_base free_bits t)
    in if leb (frag_base + ufs.sb.frag) cg_ndblk then step else ok (frag_base, t)

unfoldable pub frag_flags : Buf → ℕ → ℕ → Result (List Bool)
frag_flags cg_bytes zero f = ok []
frag_flags cg_bytes (suc n) f = do
  free ← is_frag_free cg_bytes f
  rest ← frag_flags cg_bytes n (f + 1)
  ok (free ∷ rest)

-- The fragments behind the last whole block.
unfoldable pub count_trailing : Buf → ℕ → ℕ × BlockCounts → Result BlockCounts
count_trailing cg_bytes cg_ndblk (frag_base, t) = do
  flags ← frag_flags cg_bytes (cg_ndblk - frag_base) frag_base
  let trailing_free = count_true flags
  let counted : BlockCounts = record t {
    nffree = t.nffree + trailing_free;
    frsum = account_fragment_run flags t.frsum;
  }
  ok (if ltb 0 trailing_free then counted else t)
