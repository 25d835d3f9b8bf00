-- ===== src/Word/Signed.antt =====
-- Signed integers over the native numbers, as far as 32-bit code needs them. The operations of C
-- are those of the standard: `/` goes towards zero, `%` has the dividend's sign, and `>>` of a
-- negative number goes down, as every compiler for the target has it.
use zirgen.Prelude.{ℕ, zero, suc, ◌-◌, ◌*◌, ◌/◌, ◌%◌, ◌^◌, Bool, true, false, ltb, if◌then◌else◌}

-- `negsuc n` is -(n + 1).
pub data ℤ : Type 0 where
  pos : ℕ → ℤ
  negsuc : ℕ → ℤ

-- -n
unfoldable pub neg : ℕ → ℤ
neg zero = pos 0
neg (suc n) = negsuc n

infixl 70 ◌*ℤ◌
unfoldable pub ◌*ℤ◌ : ℤ → ℤ → ℤ
unfolding neg
◌*ℤ◌ (pos a) (pos b) = pos (a * b)
◌*ℤ◌ (pos a) (negsuc b) = neg (a * suc b)
◌*ℤ◌ (negsuc a) (pos b) = neg (suc a * b)
◌*ℤ◌ (negsuc a) (negsuc b) = pos (suc a * suc b)

abbrev pub magnitude : ℤ → ℕ
magnitude (pos n) = n
magnitude (negsuc n) = suc n

unfoldable pub tdiv : ℤ → ℤ → ℤ
unfolding neg
tdiv (pos a) (pos b) = pos (a / b)
tdiv (pos a) (negsuc b) = neg (a / suc b)
tdiv (negsuc a) (pos b) = neg (suc a / b)
tdiv (negsuc a) (negsuc b) = pos (suc a / suc b)

unfoldable pub tmod : ℤ → ℤ → ℤ
unfolding neg
tmod (pos a) b = pos (a % magnitude b)
tmod (negsuc a) b = neg (suc a % magnitude b)

unfoldable pub asr : ℤ → ℕ → ℤ
asr (pos a) k = pos (a / 2 ^ k)
asr (negsuc a) k = negsuc (a / 2 ^ k)

unfoldable pub ltb_ℤ : ℤ → ℤ → Bool
ltb_ℤ (pos a) (pos b) = ltb a b
ltb_ℤ (pos a) (negsuc b) = false
ltb_ℤ (negsuc a) (pos b) = true
ltb_ℤ (negsuc a) (negsuc b) = ltb b a

-- `int32_t(w)`
unfoldable pub int32 : ℕ → ℤ
int32 w = if ltb w (2 ^ 31) then pos w else negsuc (2 ^ 32 - 1 - w)

-- The cast of an integer to an unsigned type of `2 ^ w` values, for `m = 2 ^ w`.
unfoldable pub wrap : ℕ → ℤ → ℕ
wrap m (pos n) = n % m
wrap m (negsuc n) = m - 1 - n % m
