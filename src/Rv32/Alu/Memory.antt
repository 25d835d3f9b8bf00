-- ===== src/Rv32/Alu/Memory.antt =====
-- Loads and stores of bytes and half-words within a word.
pub mod Merge
use zirgen.Prelude.{
  ℕ, zero, suc, ◌+◌, ◌-◌, ◌*◌, ◌/◌, ◌%◌, ◌^◌, ◌<◌, ◌≡◌, ◌≢◌, refl, ap, ◌⊎◌, inl, inr, arith,
  bit_and, bit_or, bit_xor, ltb, ◌==◌, if◌then◌else◌,
}
use native.Mathlib.Nat.{mod-eq_of_lt, mod-lt, one-le-pow}
use zirgen.Bits.Mask.{bit_and-ones, bit_and-field, bit_or_high}
use zirgen.Word.{IsWord, shl32, shr}
use zirgen.Rv32.Decode.Laws.{sign_extend}
use zirgen.Rv32.Inst.{lb, lh, lw, lbu, lhu, sb, sh, sw}
use zirgen.Rv32.Alu.{shift, extend, merge, Access, load_out, store_out, value, misaligned}
use Merge.{merge_field}

abbrev pub byte : ℕ → ℕ → ℕ
byte i word = word / 2 ^ (8 * i) % 2 ^ 8

abbrev pub half : ℕ → ℕ → ℕ
half i word = word / 2 ^ (16 * i) % 2 ^ 16

quarters : (a : ℕ) → (a % 4 ≡ 0) ⊎ (a % 4 ≡ 1) ⊎ (a % 4 ≡ 2) ⊎ (a % 4 ≡ 3)
quarters a = omega arith

shift_lem : (addr : ℕ) → shift addr ≡ 8 * (addr % 4)
shift_lem addr = ap (λ t. 8 * t) (bit_and-ones 2 addr)

-- What the five loads give for an address and the word around it.
pub record IsLoaded (addr word : ℕ) : Type 0 where
  pub lbu_eq : load_out lbu addr word ≡ value (byte (addr % 4) word)
  pub lb_eq : load_out lb addr word ≡ value (sign_extend 8 (byte (addr % 4) word))
  pub lhu_eq :
      load_out lhu addr word
      ≡ (if addr % 2 == 0 then value (half (addr / 2 % 2) word) else misaligned)
  pub lh_eq :
      load_out lh addr word
      ≡ (if addr % 2 == 0 then value (sign_extend 16 (half (addr / 2 % 2) word)) else misaligned)
  pub lw_eq : load_out lw addr word ≡ (if addr % 4 == 0 then value word else misaligned)

-- `if (out & top) out |= high` extends the sign.
extend_byte : (out : ℕ) → out < 256 → extend 0x80 0xffffff00 out ≡ sign_extend 8 out
extend_byte out h = ground (arith, bit_and-field 7 1 out, bit_or_high 8 0xffffff out h)

extend_half : (out : ℕ) → out < 65536 → extend 0x8000 0xffff0000 out ≡ sign_extend 16 out
extend_half out h = ground (arith, bit_and-field 15 1 out, bit_or_high 16 0xffff out h)

loaded_byte : (addr word : ℕ) → bit_and (shr word (shift addr)) 0xff ≡ byte (addr % 4) word
loaded_byte addr word = rw (bit_and-ones 2 addr) (bit_and-ones 8 (word / 2 ^ (8 * (addr % 4))))

loaded_half :
    (addr word : ℕ)
    → addr % 2 ≡ 0
    → bit_and (shr word (shift addr)) 0xffff ≡ half (addr / 2 % 2) word
loaded_half addr word even =
    let e : 8 * (addr % 4) ≡ 16 * (addr / 2 % 2) = omega arith in
    rw (bit_and-ones 2 addr, e) (bit_and-ones 16 (word / 2 ^ (16 * (addr / 2 % 2))))

-- LB, LBU, LH, LHU and LW give the addressed byte, half-word or word of the memory word, with its
-- sign where the instruction says so, and an unaligned LH, LHU or LW its trap.
pub load_out-IsLoaded : (addr word : ℕ) → IsWord word → IsLoaded addr word
unfolding load_out
load_out-IsLoaded addr word h = record {
  lbu_eq = ap value (loaded_byte addr word);
  lb_eq = ap value (rw (loaded_byte addr word) (extend_byte (byte (addr % 4) word) (omega arith)));
  lhu_eq = ground (arith, bit_and-ones 1 addr, loaded_half addr word);
  lh_eq = ground (
    arith,
    bit_and-ones 1 addr,
    loaded_half addr word,
    extend_half (half (addr / 2 % 2) word) (omega arith),
  );
  lw_eq = ground (arith, bit_and-ones 2 addr);
}

below_four {ℓ} : (P : ℕ → Type ℓ) → P 0 → P 1 → P 2 → P 3 → (i : ℕ) → i < 4 → P i
below_four P a b c d zero h = a
below_four P a b c d (suc zero) h = b
below_four P a b c d (suc (suc zero)) h = c
below_four P a b c d (suc (suc (suc zero))) h = d
below_four P a b c d (suc (suc (suc (suc i)))) h = absurd (omega arith)

-- `merge` where the shifts lose no bit.
merge_small :
    (k n word rs2 : ℕ)
    → (2 ^ n - 1) * 2 ^ k < 2 ^ 32
    → rs2 % 2 ^ n * 2 ^ k < 2 ^ 32
    → merge (2 ^ n - 1) k word rs2
      ≡ (word / 2 ^ k / 2 ^ n * 2 ^ n + rs2 % 2 ^ n) * 2 ^ k + word % 2 ^ k
unfolding merge
merge_small k n word rs2 p q =
    rw (bit_and-ones n rs2, mod-eq_of_lt p, mod-eq_of_lt q)
      (merge_field k n word (rs2 % 2 ^ n) (mod-lt rs2 (one-le-pow n 2 (omega arith))))

-- `new` is `word` with the byte `c` replaced, by the equation of `merge_small`.
abbrev StoresByte : ℕ → ℕ → ℕ → ℕ → Type 0
StoresByte word v new c =
    IsWord new × ((i : ℕ) → i < 4 → byte i new ≡ (if i == c then v % 256 else byte i word))

module _ (word v new : ℕ) (h : IsWord word) where
  abbrev Merged : ℕ → ℕ → Type 0
  Merged k n = new ≡ (word / 2 ^ k / 2 ^ n * 2 ^ n + v % 2 ^ n) * 2 ^ k + word % 2 ^ k

  abbrev ByteIs : ℕ → ℕ → Type 0
  ByteIs c i = byte i new ≡ (if i == c then v % 256 else byte i word)

  byte_0 : Merged 0 8 → StoresByte word v new 0
  byte_0 e =
      (omega arith, below_four (ByteIs 0) (omega arith) (omega arith) (omega arith) (omega arith))

  byte_1 : Merged 8 8 → StoresByte word v new 1
  byte_1 e =
      (omega arith, below_four (ByteIs 1) (omega arith) (omega arith) (omega arith) (omega arith))

  byte_2 : Merged 16 8 → StoresByte word v new 2
  byte_2 e =
      (omega arith, below_four (ByteIs 2) (omega arith) (omega arith) (omega arith) (omega arith))

  byte_3 : Merged 24 8 → StoresByte word v new 3
  byte_3 e =
      (omega arith, below_four (ByteIs 3) (omega arith) (omega arith) (omega arith) (omega arith))

  abbrev StoresHalf : ℕ → Type 0
  StoresHalf c =
      IsWord new × ((i : ℕ) → i < 2 → half i new ≡ (if i == c then v % 65536 else half i word))

  half_0 : Merged 0 16 → StoresHalf 0
  half_0 e = (
    omega arith,
    λ i below.
        below_four (λ i. i < 2 → half i new ≡ (if i == 0 then v % 65536 else half i word))
          (λ _. omega arith) (λ _. omega arith) (λ p. absurd (omega arith))
          (λ p. absurd (omega arith)) i (omega arith) below,
  )

  half_1 : Merged 16 16 → StoresHalf 1
  half_1 e = (
    omega arith,
    λ i below.
        below_four (λ i. i < 2 → half i new ≡ (if i == 1 then v % 65536 else half i word))
          (λ _. omega arith) (λ _. omega arith) (λ p. absurd (omega arith))
          (λ p. absurd (omega arith)) i (omega arith) below,
  )

module _ (word v : ℕ) (h : IsWord word) where
  merge-byte : (c : ℕ) → c < 4 → StoresByte word v (merge 0xff (8 * c) word v) c
  merge-byte =
      below_four (λ c. StoresByte word v (merge 0xff (8 * c) word v) c)
        (byte_0 word v _ h (merge_small 0 8 word v (omega arith) (omega arith)))
        (byte_1 word v _ h (merge_small 8 8 word v (omega arith) (omega arith)))
        (byte_2 word v _ h (merge_small 16 8 word v (omega arith) (omega arith)))
        (byte_3 word v _ h (merge_small 24 8 word v (omega arith) (omega arith)))

  merge-half : (c : ℕ) → c < 2 → StoresHalf word v (merge 0xffff (16 * c) word v) h c
  merge-half zero p = half_0 word v _ h (merge_small 0 16 word v (omega arith) (omega arith))
  merge-half (suc zero) p = half_1 word v _ h (merge_small 16 16 word v (omega arith) (omega arith))
  merge-half (suc (suc c)) p = absurd (omega arith)

-- What the three stores leave in the word around an address.
pub record IsStored (addr word rs2 : ℕ) : Type 0 where
  pub new_byte : ℕ
  pub new_half : ℕ
  pub sb_eq : store_out sb addr word rs2 ≡ value new_byte
  pub sb_word : IsWord new_byte
  pub sb_bytes :
      (i : ℕ) → i < 4 → byte i new_byte ≡ (if i == addr % 4 then rs2 % 256 else byte i word)
  pub sh_eq : store_out sh addr word rs2 ≡ (if addr % 2 == 0 then value new_half else misaligned)
  pub sh_word : IsWord new_half
  pub sh_halves :
      (i : ℕ) → i < 2 → half i new_half ≡ (if i == addr / 2 % 2 then rs2 % 65536 else half i word)
  pub sw_eq : store_out sw addr word rs2 ≡ (if addr % 4 == 0 then value rs2 else misaligned)

-- SB leaves the word with the byte at the address replaced by the low byte of the register and
-- its other three bytes as they were. SH does so with a half-word and SW with the whole word
-- where the address is aligned, and gives `misaligned` where it is not.
pub store_out-IsStored : (addr word rs2 : ℕ) → IsWord word → IsStored addr word rs2
unfolding store_out
store_out-IsStored addr word rs2 h =
    let stored = merge-byte word rs2 h (addr % 4) (omega arith) in
    let stored_half = merge-half word rs2 h (addr / 2 % 2) (omega arith) in
    record {
      new_byte = merge 0xff (8 * (addr % 4)) word rs2;
      new_half = merge 0xffff (16 * (addr / 2 % 2)) word rs2;
      sb_eq = rw (bit_and-ones 2 addr);
      sb_word = stored.0;
      sb_bytes = stored.1;
      sh_eq = ground (arith, bit_and-ones 1 addr, bit_and-ones 2 addr);
      sh_word = stored_half.0;
      sh_halves = stored_half.1;
      sw_eq = ground (arith, bit_and-ones 2 addr);
    }
