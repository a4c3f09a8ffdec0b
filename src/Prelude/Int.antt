-- ===== src/Prelude/Int.antt =====
-- Signed integers over the native numbers, under the library's names.
use drone_server.Prelude.{if◌then◌else◌, ltb, ℕ, ◌-◌}

-- `negsuc n` is -(n + 1).
pub data ℤ : Type 0 where
  pos : ℕ → ℤ
  negsuc : ℕ → ℤ

-- The integer that a 16-bit pattern, a 32-bit pattern stands for as an int16_t, an int32_t.
abbrev pub int16 : ℕ → ℤ
int16 w = if ltb w 0x8000 then pos w else negsuc (0x10000 - w - 1)

abbrev pub int32 : ℕ → ℤ
int32 w = if ltb w 0x8000_0000 then pos w else negsuc (0x1_0000_0000 - w - 1)

abbrev pub pos_part : ℤ → ℕ
pos_part (pos n) = n
pos_part (negsuc n) = 0
