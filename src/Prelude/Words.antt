-- ===== src/Prelude/Words.antt =====
-- `uint16` and `uint32` arithmetic, with its wrap-around.
use Prim.Native.Nat.{ℕ, ◌+◌, ◌-◌, ◌%◌}

-- The conversion `uint16(x)`.
abbrev pub u16 : ℕ → ℕ
u16 n = n % 65536

-- The conversion `uint32(x)`.
abbrev pub u32 : ℕ → ℕ
u32 n = n % 4294967296

abbrev pub add16 : ℕ → ℕ → ℕ
add16 a b = u16 (a + b)

-- `-` on ℕ stops at 0, so the modulus is added first; both arguments are below 65536.
abbrev pub sub16 : ℕ → ℕ → ℕ
sub16 a b = u16 (a + 65536 - b)
