-- ===== src/Base/Int.antt =====
-- The signed integers that an `i32` field can hold; `negsuc n` is -(n + 1).
use Prim.Native.Nat.{ℕ, ◌-◌, ◌^◌, ◌<◌}
use ufs_fuse.Base.Tests.{ltb, if◌then◌else◌}

pub data ℤ : Type 0 where
  pos : ℕ → ℤ
  negsuc : ℕ → ℤ

-- The value of a 32-bit pattern in two's complement.
unfoldable pub to_i32 : ℕ → ℤ
to_i32 n = if ltb n (2 ^ 31) then pos n else negsuc (2 ^ 32 - 1 - n)

-- The 32-bit pattern of a value; only values that an `i32` can hold are passed.
unfoldable pub from_i32 : ℤ → ℕ
from_i32 (pos n) = n
from_i32 (negsuc n) = 2 ^ 32 - 1 - n

abbrev pub IsI32 : ℤ → Type 0
IsI32 (pos n) = n < 2 ^ 31
IsI32 (negsuc n) = n < 2 ^ 31
