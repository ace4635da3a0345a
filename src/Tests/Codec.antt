-- ===== src/Tests/Codec.antt =====
-- The readers and writers of codec.rs on a small buffer.
use ufs_fuse.Base.{◌+◌, ◌^◌, ◌≡◌, ok, negsuc, arith}
use ufs_fuse.Core.Image.{Buf, zeroed}
use ufs_fuse.Core.Codec.{u16, u32, i32, u64, put_u16, put_u32, put_i32, put_u64}
use ufs_fuse.Core.Codec.RoundTrip.{SameOutside, u16-put_u16, u32-put_u32, i32-put_i32, u64-put_u64}

u16-put_u16_example :
    (c : Buf) × (put_u16 (zeroed 4) 1 4660 ≡ ok c)
    × (u16 c 1 ≡ ok 4660)
    × SameOutside 1 2 (zeroed 4) c
unfolding zeroed
u16-put_u16_example = (u16-put_u16 (zeroed 4) 1 4660 (omega arith)).0 (omega arith)

u32-put_u32_example :
    (c : Buf) × (put_u32 (zeroed 8) 3 72020 ≡ ok c)
    × (u32 c 3 ≡ ok 72020)
    × SameOutside 3 4 (zeroed 8) c
unfolding zeroed
u32-put_u32_example = (u32-put_u32 (zeroed 8) 3 72020 (omega arith)).0 (omega arith)

i32-put_i32_example :
    (c : Buf) × (put_i32 (zeroed 8) 4 (negsuc 0) ≡ ok c)
    × (i32 c 4 ≡ ok (negsuc 0))
    × SameOutside 4 4 (zeroed 8) c
unfolding zeroed
i32-put_i32_example = (i32-put_i32 (zeroed 8) 4 (negsuc 0) (omega arith)).0 (omega arith)

u64-put_u64_example :
    (c : Buf) × (put_u64 (zeroed 16) 8 (2 ^ 40 + 5) ≡ ok c)
    × (u64 c 8 ≡ ok (2 ^ 40 + 5))
    × SameOutside 8 8 (zeroed 16) c
unfolding zeroed
u64-put_u64_example = (u64-put_u64 (zeroed 16) 8 (2 ^ 40 + 5) (omega arith)).0 (omega arith)
