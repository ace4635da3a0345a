-- ===== src/Core/Consts.antt =====
-- crates/svr4-fs-core/src/consts.rs: the on-disk constants and structure field offsets, in the
-- order of the source, and the size of a directory record.
use ufs_fuse.Base.{ℕ, ◌+◌, ◌-◌, ◌*◌, ◌/◌, ◌%◌}

abbrev pub sector_size : ℕ
sector_size = 512

abbrev pub bfs_magic : ℕ
bfs_magic = 0x1badface

abbrev pub ufs_magic : ℕ
ufs_magic = 0x00011954

abbrev pub ufs_cg_magic : ℕ
ufs_cg_magic = 0x00090255

abbrev pub ufs_eft_magic : ℕ
ufs_eft_magic = 0x90909090

abbrev pub ufs_fs_okay : ℕ
ufs_fs_okay = 0x7c269d38

abbrev pub ufs_root_inode : ℕ
ufs_root_inode = 2

abbrev pub ufs_sb_offset : ℕ
ufs_sb_offset = 8192

abbrev pub ufs_sb_size : ℕ
ufs_sb_size = 8192

abbrev pub ufs_dirblksiz : ℕ
ufs_dirblksiz = 512

abbrev pub ufs_dinode_size : ℕ
ufs_dinode_size = 128

abbrev pub ufs_ndaddr : ℕ
ufs_ndaddr = 12

abbrev pub ufs_niaddr : ℕ
ufs_niaddr = 3

abbrev pub ufs_csum_size : ℕ
ufs_csum_size = 16

abbrev pub nbby : ℕ
nbby = 8

abbrev pub maxfrag : ℕ
maxfrag = 8

abbrev pub maxcpg : ℕ
maxcpg = 32

abbrev pub maxipg : ℕ
maxipg = 2048

abbrev pub nrpos : ℕ
nrpos = 8

abbrev pub ufs_fs_sblkno_offset : ℕ
ufs_fs_sblkno_offset = 8

abbrev pub ufs_fs_cblkno_offset : ℕ
ufs_fs_cblkno_offset = 12

abbrev pub ufs_fs_iblkno_offset : ℕ
ufs_fs_iblkno_offset = 16

abbrev pub ufs_fs_dblkno_offset : ℕ
ufs_fs_dblkno_offset = 20

abbrev pub ufs_fs_cgoffset_offset : ℕ
ufs_fs_cgoffset_offset = 24

abbrev pub ufs_fs_cgmask_offset : ℕ
ufs_fs_cgmask_offset = 28

abbrev pub ufs_fs_time_offset : ℕ
ufs_fs_time_offset = 32

abbrev pub ufs_fs_size_offset : ℕ
ufs_fs_size_offset = 36

abbrev pub ufs_fs_dsize_offset : ℕ
ufs_fs_dsize_offset = 40

abbrev pub ufs_fs_ncg_offset : ℕ
ufs_fs_ncg_offset = 44

abbrev pub ufs_fs_bsize_offset : ℕ
ufs_fs_bsize_offset = 48

abbrev pub ufs_fs_fsize_offset : ℕ
ufs_fs_fsize_offset = 52

abbrev pub ufs_fs_frag_offset : ℕ
ufs_fs_frag_offset = 56

abbrev pub ufs_fs_minfree_offset : ℕ
ufs_fs_minfree_offset = 60

abbrev pub ufs_fs_rotdly_offset : ℕ
ufs_fs_rotdly_offset = 64

abbrev pub ufs_fs_rps_offset : ℕ
ufs_fs_rps_offset = 68

abbrev pub ufs_fs_bmask_offset : ℕ
ufs_fs_bmask_offset = 72

abbrev pub ufs_fs_fmask_offset : ℕ
ufs_fs_fmask_offset = 76

abbrev pub ufs_fs_bshift_offset : ℕ
ufs_fs_bshift_offset = 80

abbrev pub ufs_fs_fshift_offset : ℕ
ufs_fs_fshift_offset = 84

abbrev pub ufs_fs_maxcontig_offset : ℕ
ufs_fs_maxcontig_offset = 88

abbrev pub ufs_fs_maxbpg_offset : ℕ
ufs_fs_maxbpg_offset = 92

abbrev pub ufs_fs_fragshift_offset : ℕ
ufs_fs_fragshift_offset = 96

abbrev pub ufs_fs_fsbtodb_offset : ℕ
ufs_fs_fsbtodb_offset = 100

abbrev pub ufs_fs_sbsize_offset : ℕ
ufs_fs_sbsize_offset = 104

abbrev pub ufs_fs_csmask_offset : ℕ
ufs_fs_csmask_offset = 108

abbrev pub ufs_fs_csshift_offset : ℕ
ufs_fs_csshift_offset = 112

abbrev pub ufs_fs_nindir_offset : ℕ
ufs_fs_nindir_offset = 116

abbrev pub ufs_fs_inopb_offset : ℕ
ufs_fs_inopb_offset = 120

abbrev pub ufs_fs_nspf_offset : ℕ
ufs_fs_nspf_offset = 124

abbrev pub ufs_fs_optim_offset : ℕ
ufs_fs_optim_offset = 128

abbrev pub ufs_fs_state_offset : ℕ
ufs_fs_state_offset = 132

abbrev pub ufs_fs_csaddr_offset : ℕ
ufs_fs_csaddr_offset = 152

abbrev pub ufs_fs_cssize_offset : ℕ
ufs_fs_cssize_offset = 156

abbrev pub ufs_fs_cgsize_offset : ℕ
ufs_fs_cgsize_offset = 160

abbrev pub ufs_fs_ntrak_offset : ℕ
ufs_fs_ntrak_offset = 164

abbrev pub ufs_fs_nsect_offset : ℕ
ufs_fs_nsect_offset = 168

abbrev pub ufs_fs_spc_offset : ℕ
ufs_fs_spc_offset = 172

abbrev pub ufs_fs_ncyl_offset : ℕ
ufs_fs_ncyl_offset = 176

abbrev pub ufs_fs_cpg_offset : ℕ
ufs_fs_cpg_offset = 180

abbrev pub ufs_fs_ipg_offset : ℕ
ufs_fs_ipg_offset = 184

abbrev pub ufs_fs_fpg_offset : ℕ
ufs_fs_fpg_offset = 188

abbrev pub ufs_fs_cstotal_ndir_offset : ℕ
ufs_fs_cstotal_ndir_offset = 192

abbrev pub ufs_fs_cstotal_nbfree_offset : ℕ
ufs_fs_cstotal_nbfree_offset = 196

abbrev pub ufs_fs_cstotal_nifree_offset : ℕ
ufs_fs_cstotal_nifree_offset = 200

abbrev pub ufs_fs_cstotal_nffree_offset : ℕ
ufs_fs_cstotal_nffree_offset = 204

abbrev pub ufs_fs_fmod_offset : ℕ
ufs_fs_fmod_offset = 208

abbrev pub ufs_fs_clean_offset : ℕ
ufs_fs_clean_offset = 209

abbrev pub ufs_fs_ronly_offset : ℕ
ufs_fs_ronly_offset = 210

abbrev pub ufs_fs_magic_offset : ℕ
ufs_fs_magic_offset = 1372

abbrev pub ufs_cg_time_offset : ℕ
ufs_cg_time_offset = 8

abbrev pub ufs_cg_cgx_offset : ℕ
ufs_cg_cgx_offset = 12

abbrev pub ufs_cg_ncyl_offset : ℕ
ufs_cg_ncyl_offset = 16

abbrev pub ufs_cg_niblk_offset : ℕ
ufs_cg_niblk_offset = 18

abbrev pub ufs_cg_ndblk_offset : ℕ
ufs_cg_ndblk_offset = 20

abbrev pub ufs_cg_cs_ndir_offset : ℕ
ufs_cg_cs_ndir_offset = 24

abbrev pub ufs_cg_cs_nbfree_offset : ℕ
ufs_cg_cs_nbfree_offset = 28

abbrev pub ufs_cg_cs_nifree_offset : ℕ
ufs_cg_cs_nifree_offset = 32

abbrev pub ufs_cg_cs_nffree_offset : ℕ
ufs_cg_cs_nffree_offset = 36

abbrev pub ufs_cg_rotor_offset : ℕ
ufs_cg_rotor_offset = 40

abbrev pub ufs_cg_frotor_offset : ℕ
ufs_cg_frotor_offset = 44

abbrev pub ufs_cg_irotor_offset : ℕ
ufs_cg_irotor_offset = 48

abbrev pub ufs_cg_frsum_offset : ℕ
ufs_cg_frsum_offset = 52

abbrev pub ufs_cg_btot_offset : ℕ
ufs_cg_btot_offset = ufs_cg_frsum_offset + maxfrag * 4

abbrev pub ufs_cg_b_offset : ℕ
ufs_cg_b_offset = ufs_cg_btot_offset + maxcpg * 4

abbrev pub ufs_cg_magic_offset : ℕ
ufs_cg_magic_offset = 980

abbrev pub ufs_cg_iused_offset : ℕ
ufs_cg_iused_offset = ufs_cg_magic_offset - maxipg / nbby

abbrev pub ufs_cg_free_offset : ℕ
ufs_cg_free_offset = ufs_cg_magic_offset + 4

abbrev pub ufs_di_smode_offset : ℕ
ufs_di_smode_offset = 0

abbrev pub ufs_di_nlink_offset : ℕ
ufs_di_nlink_offset = 2

abbrev pub ufs_di_suid_offset : ℕ
ufs_di_suid_offset = 4

abbrev pub ufs_di_sgid_offset : ℕ
ufs_di_sgid_offset = 6

abbrev pub ufs_di_size_offset : ℕ
ufs_di_size_offset = 8

abbrev pub ufs_di_atime_offset : ℕ
ufs_di_atime_offset = 16

abbrev pub ufs_di_mtime_offset : ℕ
ufs_di_mtime_offset = 24

abbrev pub ufs_di_ctime_offset : ℕ
ufs_di_ctime_offset = 32

abbrev pub ufs_di_db_offset : ℕ
ufs_di_db_offset = 40

abbrev pub ufs_di_ib_offset : ℕ
ufs_di_ib_offset = 88

abbrev pub ufs_di_flags_offset : ℕ
ufs_di_flags_offset = 100

abbrev pub ufs_di_blocks_offset : ℕ
ufs_di_blocks_offset = 104

abbrev pub ufs_di_gen_offset : ℕ
ufs_di_gen_offset = 108

abbrev pub ufs_di_mode_offset : ℕ
ufs_di_mode_offset = 112

abbrev pub ufs_di_uid_offset : ℕ
ufs_di_uid_offset = 116

abbrev pub ufs_di_gid_offset : ℕ
ufs_di_gid_offset = 120

abbrev pub ufs_di_eftflag_offset : ℕ
ufs_di_eftflag_offset = 124

abbrev pub ufs_dirent_ino_offset : ℕ
ufs_dirent_ino_offset = 0

abbrev pub ufs_dirent_reclen_offset : ℕ
ufs_dirent_reclen_offset = 4

abbrev pub ufs_dirent_namlen_offset : ℕ
ufs_dirent_namlen_offset = 6

abbrev pub ufs_dirent_name_offset : ℕ
ufs_dirent_name_offset = 8

abbrev pub ufs_dirent_header_size : ℕ
ufs_dirent_header_size = 8

abbrev pub ufs_ifmt : ℕ
ufs_ifmt = 0o170000

abbrev pub ufs_ifchr : ℕ
ufs_ifchr = 0o20000

abbrev pub ufs_ifdir : ℕ
ufs_ifdir = 0o40000

abbrev pub ufs_ifblk : ℕ
ufs_ifblk = 0o60000

abbrev pub ufs_ifreg : ℕ
ufs_ifreg = 0o100000

abbrev pub ufs_iflnk : ℕ
ufs_iflnk = 0o120000

-- `(name_len + 1 + 3) & !3` clears the two low bits: it takes the remainder by 4 off.
unfoldable pub ufs_dirsiz : ℕ → ℕ
ufs_dirsiz name_len = ufs_dirent_header_size + ((name_len + 1 + 3) - (name_len + 1 + 3) % 4)
