-- ===== src/Rv32/Alu/Memory/Merge.antt =====
-- Replacing a field of a word: cleared by `^` with what `&` finds there, then set by `|`.
use zirgen.Prelude.{
  ℕ, ◌+◌, ◌-◌, ◌*◌, ◌/◌, ◌%◌, ◌^◌, ◌<◌, ◌≡◌, refl, ap, sym, ◌∙◌, arith, bit_and, bit_or, bit_xor,
}
use native.Mathlib.Nat.{one-le-pow, mod-lt, div-add-mod'}
use zirgen.Bits.{bit_or-join, bit_xor-join, div-pack, mod-pack}
use zirgen.Bits.Mask.{bit_and-field, bit_or-zero, zero-bit_or, bit_xor-zero, bit_xor_self}

module _ (k n h m l : ℕ) (p : m < 2 ^ n) (q : l < 2 ^ k) where
  abbrev word : ℕ
  word = (h * 2 ^ n + m) * 2 ^ k + l

  masked : bit_and word ((2 ^ n - 1) * 2 ^ k) ≡ m * 2 ^ k
  masked =
      rw (bit_and-field k n word, div-pack (h * 2 ^ n + m) l (2 ^ k) q, mod-pack h m (2 ^ n) p) refl

  cleared : bit_xor word (m * 2 ^ k) ≡ h * 2 ^ n * 2 ^ k + l
  cleared =
      let fields = bit_xor-join n h 0 m m p p in
      let outer = bit_xor-join k (h * 2 ^ n + m) m l 0 q (one-le-pow k 2 (omega arith)) in
      ground (arith, fields, outer, bit_xor-zero h, bit_xor_self m, bit_xor-zero l)

  written :
      (v : ℕ) → v < 2 ^ n → bit_or (h * 2 ^ n * 2 ^ k + l) (v * 2 ^ k) ≡ (h * 2 ^ n + v) * 2 ^ k + l
  written v r =
      let fields = bit_or-join n h 0 0 v (one-le-pow n 2 (omega arith)) r in
      let outer = bit_or-join k (h * 2 ^ n) v l 0 q (one-le-pow k 2 (omega arith)) in
      ground (arith, fields, outer, bit_or-zero h, zero-bit_or v, bit_or-zero l)

  replaced :
      (v : ℕ)
      → v < 2 ^ n
      → bit_or (bit_xor word (bit_and word ((2 ^ n - 1) * 2 ^ k))) (v * 2 ^ k)
        ≡ (h * 2 ^ n + v) * 2 ^ k + l
  replaced v r =
      ap (λ t. bit_or (bit_xor word t) (v * 2 ^ k)) masked
      ∙ ap (λ t. bit_or t (v * 2 ^ k)) cleared
      ∙ written v r

pub merge_field :
    (k n word v : ℕ)
    → v < 2 ^ n
    → bit_or (bit_xor word (bit_and word ((2 ^ n - 1) * 2 ^ k))) (v * 2 ^ k)
      ≡ (word / 2 ^ k / 2 ^ n * 2 ^ n + v) * 2 ^ k + word % 2 ^ k
merge_field k n word v r =
    let h = word / 2 ^ k / 2 ^ n in
    let m = word / 2 ^ k % 2 ^ n in
    let l = word % 2 ^ k in
    let p : m < 2 ^ n = mod-lt _ (one-le-pow n 2 (omega arith)) in
    let q : l < 2 ^ k = mod-lt _ (one-le-pow k 2 (omega arith)) in
    let whole : word ≡ (h * 2 ^ n + m) * 2 ^ k + l =
      sym (
        ap (λ t. t * 2 ^ k + l) (div-add-mod' (word / 2 ^ k) (2 ^ n))
        ∙ div-add-mod' word (2 ^ k)) in
    ap (λ w. bit_or (bit_xor w (bit_and w ((2 ^ n - 1) * 2 ^ k))) (v * 2 ^ k)) whole
    ∙ replaced k n h m l p q v r
