-- ===== src/Zkp/Poseidon2.antt =====
-- zirgen/compiler/zkp/poseidon2.cpp, and the Montgomery form of baby_bear.h, on plain residues.
pub mod Laws
pub mod Ext
use zirgen.Prelude.{
  ℕ, zero, suc, ◌+◌, ◌*◌, ◌/◌, ◌%◌, ◌^◌, ◌-◌, ◌==◌, leb, ◌||◌, not, if◌then◌else◌, List, [], ◌∷◌,
  ◌++◌, get_or, set, each, length, replicate, bit_and, map,
}
use zirgen.Fp.{p}
use zirgen.Zkp.Constants.{cells, rounds_half_full, rounds_partial, m_int_diag_hzn, round_constants}

abbrev u32 : ℕ → ℕ
u32 n = n % 2 ^ 32

abbrev u64 : ℕ → ℕ
u64 n = n % 2 ^ 64

unfoldable pub to_montgomery : ℕ → ℕ
to_montgomery n = u64 (n * 268435454) % p

unfoldable pub from_montgomery : ℕ → ℕ
from_montgomery n = u64 (n * 943718400) % p

-- `out[i] += n; out[i] %= kBabyBearP;`
abbrev pub add_cell : ℕ → ℕ → List ℕ → List ℕ
add_cell i n out = set out i (u32 (get_or out i 0 + n) % p)

unfoldable pub add_round_constants_partial : List ℕ → ℕ → List ℕ
unfolding round_constants
add_round_constants_partial cur round = add_cell 0 (get_or round_constants (round * cells) 0) cur

unfoldable pub add_round_constants_full : List ℕ → ℕ → List ℕ
unfolding round_constants
add_round_constants_full cur round =
    each 0 cells (λ i out. add_cell i (get_or round_constants (round * cells + i) 0) out) cur

pub record Four : Type 0 where
  pub a : ℕ
  pub b : ℕ
  pub c : ℕ
  pub d : ℕ

unfoldable pub multiply_by_4x4_circulant : Four → Four
multiply_by_4x4_circulant v =
    let t0 = u32 (v.a + v.b) % p in
    let t1 = u32 (v.c + v.d) % p in
    let t2 = u64 (u64 (2 * v.b) + t1) % p in
    let t3 = u64 (u64 (2 * v.d) + t0) % p in
    let t4 = u64 (u64 (4 * t1) + t3) % p in
    let t5 = u64 (u64 (4 * t0) + t2) % p in
    let t6 = u64 (t3 + t5) % p in
    let t7 = u64 (t2 + t4) % p in record { a = t6; b = t5; c = t7; d = t4 }

unfoldable pub multiply_by_m_int : List ℕ → List ℕ
unfolding m_int_diag_hzn
multiply_by_m_int cur =
    let sum = each 0 cells (λ i n. u64 (n + get_or cur i 0)) 0 % p in
    each 0 cells
      (λ i out. set out i (u64 (sum + u64 (get_or m_int_diag_hzn i 0 * get_or cur i 0)) % p))
      (replicate cells 0)

abbrev pub entry : Four → ℕ → ℕ
entry v j = if j == 0 then v.a else (if j == 1 then v.b else (if j == 2 then v.c else v.d))

-- The sums `tmp_sums` and `out`.
abbrev pub chunk : List ℕ → ℕ → List ℕ × List ℕ → List ℕ × List ℕ
chunk cur i s =
    let v = multiply_by_4x4_circulant (record {
      a = get_or cur (4 * i) 0;
      b = get_or cur (4 * i + 1) 0;
      c = get_or cur (4 * i + 2) 0;
      d = get_or cur (4 * i + 3) 0;
    }) in
    each 0 4
      (λ j (sums, out).
        let to_add = entry v j % p in (add_cell j to_add sums, add_cell (4 * i + j) to_add out))
      s

unfoldable pub multiply_by_m_ext : List ℕ → List ℕ
unfolding multiply_by_4x4_circulant
multiply_by_m_ext cur =
    let (sums, out) = each 0 (cells / 4) (chunk cur) (replicate 4 0, replicate cells 0) in
    each 0 cells (λ i all. add_cell i (get_or sums (i % 4) 0) all) out

unfoldable pub sbox2 : ℕ → ℕ
sbox2 n =
    let n2 = u64 (n * n) % p in
    let n4 = u64 (n2 * n2) % p in let n6 = u64 (n4 * n2) % p in u64 (n6 * n) % p

unfoldable pub full_poseidon2_round : List ℕ → ℕ → List ℕ
unfolding add_round_constants_full sbox2 multiply_by_m_ext
full_poseidon2_round cur idx =
    multiply_by_m_ext (
      each 0 cells (λ i out. set out i (sbox2 (get_or out i 0))) (add_round_constants_full cur idx))

unfoldable pub partial_poseidon2_round : List ℕ → ℕ → List ℕ
unfolding add_round_constants_partial sbox2 multiply_by_m_int
partial_poseidon2_round cur idx =
    let out = add_round_constants_partial cur idx in
    multiply_by_m_int (set out 0 (sbox2 (get_or out 0 0)))

unfoldable pub poseidon2_mix : List ℕ → List ℕ
unfolding multiply_by_m_ext full_poseidon2_round partial_poseidon2_round
poseidon2_mix cur =
    let first =
      each 0 rounds_half_full (λ i now. full_poseidon2_round now i) (multiply_by_m_ext cur) in
    let second =
      each 0 rounds_partial (λ i now. partial_poseidon2_round now (rounds_half_full + i)) first in
    each 0 rounds_half_full
      (λ i now. full_poseidon2_round now (rounds_half_full + rounds_partial + i)) second

-- The loop over the data, with what is used of the cells.
unfoldable pub absorb : List ℕ → List ℕ → ℕ → List ℕ × ℕ
unfolding poseidon2_mix
absorb [] cur used = (cur, used)
absorb (n ∷ ns) cur used =
    let put = set cur used (n % p) in
    let full = absorb ns (poseidon2_mix put) 0 in
    let more = absorb ns put (used + 1) in if used + 1 == 16 then full else more

abbrev pub digest_of : List ℕ → List ℕ
digest_of cur = each 0 8 (λ i out. set out i (to_montgomery (get_or cur i 0))) (replicate 8 0)

unfoldable pub poseidon2_hash : List ℕ → List ℕ
unfolding absorb to_montgomery
poseidon2_hash ns =
    let (cur, used) = absorb ns (replicate cells 0) 0 in
    let padded = poseidon2_mix (each used (16 - used) (λ loc out. set out loc 0) cur) in
    digest_of (if not (used == 0) || (length ns == 0) then padded else cur)

unfoldable pub poseidon2_hash_pair : List ℕ → List ℕ → List ℕ
unfolding poseidon2_mix to_montgomery from_montgomery
poseidon2_hash_pair x y = digest_of (
    poseidon2_mix (
      each 0 8
        (λ i out.
          set (set out i (from_montgomery (get_or x i 0))) (8 + i) (from_montgomery (get_or y i 0)))
        (replicate cells 0)))
