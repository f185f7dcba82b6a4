-- ===== src/Common/Int/Wrap.antt =====
-- Signed machine integers: the result of an operation of `int32_t` or `int64_t`, wrapped around.
use iceberg_cxx.Common.Tests.{ltb, if◌then◌else◌}
use Prim.Native.Nat.{◌+◌, ◌-◌, ◌^◌, ◌%◌, ◌<◌}
use mathlib.Core.Path.{◌≡◌}
use native.Mathlib.Omega.{arith}
use iceberg_cxx.Common.Int.{ℤ, pos, pos_part, neg_part, sub_ℕ, abs}

unfoldable pub int32 : ℤ → ℤ
int32 z =
    let r = (pos_part z + (2 ^ 32 - neg_part z % 2 ^ 32)) % 2 ^ 32 in
    if ltb r (2 ^ 31) then pos r else sub_ℕ r (2 ^ 32)

unfoldable pub int64 : ℤ → ℤ
int64 z =
    let r = (pos_part z + (2 ^ 64 - neg_part z % 2 ^ 64)) % 2 ^ 64 in
    if ltb r (2 ^ 63) then pos r else sub_ℕ r (2 ^ 64)

-- `abs`, which leaves the least integer as it is.
unfoldable pub abs32 : ℤ → ℤ
unfolding int32
abs32 z = int32 (pos (abs z))

unfoldable pub abs64 : ℤ → ℤ
unfolding int64
abs64 z = int64 (pos (abs z))

-- A result that the bits hold.
pub int32-small : (z : ℤ) → abs z < 2 ^ 31 → int32 z ≡ z
unfolding int32
int32-small z h = ground arith

pub int64-small : (z : ℤ) → abs z < 2 ^ 63 → int64 z ≡ z
unfolding int64
int64-small z h = ground arith

pub abs32-small : (z : ℤ) → abs z < 2 ^ 31 → abs32 z ≡ pos (abs z)
unfolding abs32
abs32-small z h = int32-small (pos (abs z)) (omega arith)

pub abs64-small : (z : ℤ) → abs z < 2 ^ 63 → abs64 z ≡ pos (abs z)
unfolding abs64
abs64-small z h = int64-small (pos (abs z)) (omega arith)
