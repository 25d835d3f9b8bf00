-- ===== src/Fp/Pow.antt =====
-- `pow` by squaring is the power of the integers modulo P.
use zirgen.Fp.{Fp}
