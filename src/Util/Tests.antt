-- ===== src/Util/Tests.antt =====
-- The arithmetic of the core at concrete numbers.
use zirgen.Prelude.{◌≡◌, refl, arith, some}
use zirgen.Util.{nearest_po2, divide_rv32im}
use zirgen.Util.Laws.{IsDivision, divide-IsDivision}

rounded : nearest_po2 65 1000 ≡ some 1024
unfolding nearest_po2
rounded = refl

-- -7 divided by 2, and in one's complement.
quotients : divide_rv32im 0xfffffff9 2 1 ≡ (0xfffffffd, 0xffffffff)
unfolding divide_rv32im
quotients = refl

divide-IsDivision_example : IsDivision 0 0x80000000 0xffffffff
divide-IsDivision_example = divide-IsDivision 0 0x80000000 0xffffffff (omega arith) (omega arith)
