-- ===== src/R1cs/Format/Laws.antt =====
-- The helpers of `Reader` take exactly a printed number off the stream.
use zirgen.Prelude.{
  ℕ, zero, suc, ◌+◌, ◌*◌, ◌/◌, ◌%◌, ◌^◌, ◌<◌, ◌≡◌, refl, ap, List, length, arith, bit_or,
}
use mathlib.Core.Path.{subst}
use native.Mathlib.Nat.{one-le-pow, mod-lt}
use zirgen.Bits.Mask.{bit_or_high}
use zirgen.R1cs.Stream.{
  read_item, read_u32, read_u64, read_bigint, u32_of, u64_of, u32_within, u64_within, bigint_within,
  within_capacity,
}
use zirgen.R1cs.Stream.Parses.{
  Parses, at_file, in_section, Parses-read_item, Parses-last, Parses-within_capacity,
}
use zirgen.R1cs.Format.{little_endian, print_u32, print_u64}

length-little_endian : (n x : ℕ) → length (little_endian n x) ≡ n
unfolding little_endian
length-little_endian zero x = refl
length-little_endian (suc n) x = ap suc (length-little_endian n (x / 256))

pub length-print_u32 : (x : ℕ) → length (print_u32 x) ≡ 4
unfolding print_u32
length-print_u32 = length-little_endian 4

pub length-print_u64 : (x : ℕ) → length (print_u64 x) ≡ 8
unfolding print_u64
length-print_u64 = length-little_endian 8

-- A byte joins the ones below it.
byte_joined :
    (k x y m : ℕ) → y % 256 * 2 ^ k + x % 2 ^ k ≡ m → bit_or (x % 2 ^ k) (y % 256 * 2 ^ k) ≡ m
byte_joined k x y m e =
    rw (bit_or_high k (y % 256) (x % 2 ^ k) (mod-lt x (one-le-pow k 2 (omega arith)))) e

u32_of-print : (x : ℕ) → x < 2 ^ 32 → u32_of (print_u32 x) ≡ x
unfolding u32_of print_u32 little_endian
u32_of-print x h =
    rw
      (
        byte_joined 8 x (x / 256) (x % 2 ^ 16) (omega arith),
        byte_joined 16 x (x / 256 / 256) (x % 2 ^ 24) (omega arith),
        byte_joined 24 x (x / 256 / 256 / 256) (x % 2 ^ 32) (omega arith),
      )
      (omega arith)

u64_of-print : (x : ℕ) → x < 2 ^ 64 → u64_of (print_u64 x) ≡ x
unfolding u64_of print_u64 little_endian
u64_of-print x h =
    rw
      (
        byte_joined 8 x (x / 256) (x % 2 ^ 16) (omega arith),
        byte_joined 16 x (x / 256 / 256) (x % 2 ^ 24) (omega arith),
        byte_joined 24 x (x / 256 / 256 / 256) (x % 2 ^ 32) (omega arith),
        byte_joined 32 x (x / 256 / 256 / 256 / 256) (x % 2 ^ 40) (omega arith),
        byte_joined 40 x (x / 256 / 256 / 256 / 256 / 256) (x % 2 ^ 48) (omega arith),
        byte_joined 48 x (x / 256 / 256 / 256 / 256 / 256 / 256) (x % 2 ^ 56) (omega arith),
        byte_joined 56 x (x / 256 / 256 / 256 / 256 / 256 / 256 / 256) (x % 2 ^ 64) (omega arith),
      )
      (omega arith)

pub Parses-read_u32 :
    {place : ℕ} (x : ℕ) → x < 2 ^ 32 → Parses at_file place read_u32 (print_u32 x) x
unfolding read_u32 print_u32 little_endian
Parses-read_u32 {place} x h =
    subst (Parses at_file place read_u32 (print_u32 x)) (u32_of-print x h)
      (Parses-last u32_of (Parses-read_item (print_u32 x)))

pub Parses-read_u64 :
    {place : ℕ} (x : ℕ) → x < 2 ^ 64 → Parses at_file place read_u64 (print_u64 x) x
unfolding read_u64 print_u64 little_endian
Parses-read_u64 {place} x h =
    subst (Parses at_file place read_u64 (print_u64 x)) (u64_of-print x h)
      (Parses-last u64_of (Parses-read_item (print_u64 x)))

pub Parses-u32_within :
    {place : ℕ} (x : ℕ) → x < 2 ^ 32 → Parses in_section place u32_within (print_u32 x) x
unfolding u32_within print_u32
Parses-u32_within {place} x h = Parses-within_capacity 4 (length-print_u32 x) (Parses-read_u32 x h)

pub Parses-u64_within :
    {place : ℕ} (x : ℕ) → x < 2 ^ 64 → Parses in_section place u64_within (print_u64 x) x
unfolding u64_within print_u64
Parses-u64_within {place} x h = Parses-within_capacity 8 (length-print_u64 x) (Parses-read_u64 x h)

pub Parses-bigint_within :
    {place : ℕ} (fs : ℕ) (v : List ℕ)
    → length v ≡ fs
    → Parses in_section place (bigint_within fs) v v
unfolding bigint_within read_bigint
Parses-bigint_within {place} fs v e =
    subst (λ n. Parses in_section place (within_capacity n (read_item n)) v v) e
      (Parses-within_capacity (length v) refl (Parses-read_item v))
