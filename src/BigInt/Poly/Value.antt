-- ===== src/BigInt/Poly/Value.antt =====
-- What a polynomial stands for.
use zirgen.Prelude.{List, [], ◌∷◌}
use zirgen.Word.Signed.{ℤ, pos, ◌*ℤ◌}
use zirgen.BigInt.Int.{◌+ℤ◌}

unfoldable pub value : List ℤ → ℤ
unfolding ◌+ℤ◌ ◌*ℤ◌
value [] = pos 0
value (c ∷ cs) = c +ℤ pos 256 *ℤ value cs
