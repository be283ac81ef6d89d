-- ===== src/Common/Int.antt =====
-- Signed integers over the native numbers, and the range of `int64_t`.
use arduino_q_plugin.Common.{ℕ, ◌-◌, ◌^◌, ◌<◌, ltb, if◌then◌else◌}

-- `negsuc n` is -(n + 1).
pub data ℤ : Type 0 where
  pos : ℕ → ℤ
  negsuc : ℕ → ℤ

-- The values of `int64_t` and of `uint64_t`.
abbrev pub IsInt64 : ℤ → Type 0
IsInt64 (pos n) = n < 2 ^ 63
IsInt64 (negsuc n) = n < 2 ^ 63

-- `static_cast<int64_t>` of a `uint64_t`: the same 64 bits, read in two's complement.
unfoldable pub cast_int64 : ℕ → ℤ
cast_int64 n = if ltb n (2 ^ 63) then pos n else negsuc (2 ^ 64 - n - 1)
