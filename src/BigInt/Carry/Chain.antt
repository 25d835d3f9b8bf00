-- ===== src/BigInt/Carry/Chain.antt =====
-- The carries of a polynomial that stands for zero, and the bytes of each.
use zirgen.Prelude.{
  ℕ, ◌+◌, ◌*◌, ◌/◌, ◌%◌, ◌^◌, ◌≤◌, ◌<◌, ◌≡◌, refl, ap, max, ltb, Bool-cases, inl, inr,
  if◌then◌else◌, List, [], ◌∷◌, arith,
}
use zirgen.Prelude.Result.{ok}
use zirgen.Word.Signed.{ℤ, pos, ◌*ℤ◌, tdiv, wrap, int32}
use zirgen.BigInt.Int.{pos_part, neg_part, ◌+ℤ◌, ◌-ℤ◌, ext, +ℤ_parts, -ℤ_parts, +ℤ_bounds}
use zirgen.BigInt.Types.{BigIntType, get_carry_offset, get_carry_bytes}
use zirgen.BigInt.Poly.{BytePoly, checked}
use zirgen.BigInt.Poly.Value.{value}
use zirgen.BigInt.Poly.Loop.{Each, IsBetween, checked-ok}
use zirgen.BigInt.Carry.Exact.{tdiv-parts, one_sign, exact}
use zirgen.BigInt.Carry.{row, carries, big_carry, carry_offset}

module _ (t : BigIntType) where
  abbrev pub biggest : ℕ
  biggest = max t.max_pos t.max_neg

  abbrev pub most : ℕ
  most = biggest / 255

  abbrev pub offset : ℕ
  offset = get_carry_offset t

  abbrev pub IsCarry : ℤ → Type 0
  IsCarry = IsBetween most most

  -- Two times the offset has three bytes.
  abbrev pub IsCarryable : Type 0
  IsCarryable = get_carry_offset t * 2 < 2 ^ 24

  -- Each carry is what its element and the carry before leave over.
  abbrev pub Carried : ℤ → BytePoly → List ℤ → Type 0
  Carried carry [] [] = carry ≡ pos 0
  Carried carry [] (k ∷ ks) = ⊥
  Carried carry (c ∷ poly) [] = ⊥
  Carried carry (c ∷ poly) (k ∷ ks) =
      IsBetween t.max_pos t.max_neg c
      × IsCarry carry
      × (c +ℤ carry ≡ pos 256 *ℤ k)
      × IsCarry k
      × Carried k poly ks

  pub tdiv-IsCarry :
      (c carry : ℤ)
      → IsCarryable
      → IsBetween t.max_pos t.max_neg c
      → IsCarry carry
      → (checked (c +ℤ carry) ≡ ok (c +ℤ carry)) × IsCarry (tdiv (c +ℤ carry) (pos 256))
  unfolding get_carry_offset
  tdiv-IsCarry c carry small (ch, cl) (kh, kl) =
      let (h, l) = +ℤ_bounds c carry in
      let (dp, dn) = tdiv-parts (c +ℤ carry) in
      (
        checked-ok (biggest + most) (biggest + most) (c +ℤ carry) (omega arith) (omega arith)
            (omega arith, omega arith),
        (omega arith, omega arith),
      )

  pub carries-Carried :
      (carry : ℤ) (poly : BytePoly)
      → IsCarryable
      → IsCarry carry
      → Each (λ _. IsBetween t.max_pos t.max_neg) 0 poly
      → value poly +ℤ carry ≡ pos 0
      → (ks : List ℤ) × (carries carry poly ≡ ok ks) × Carried carry poly ks
  unfolding carries value
  carries-Carried carry [] small k e v =
      ([], refl, ext _ _ (omega (arith, +ℤ_parts (pos 0) carry, ap pos_part v, ap neg_part v)))
  carries-Carried carry (c ∷ poly) small k (b, e) v =
      let (good, next) = tdiv-IsCarry c carry small b k in
      let (zero_left, whole) = exact c carry (value poly) v in
      let (ks, run, carried) =
        carries-Carried (tdiv (c +ℤ carry) (pos 256)) poly small next e zero_left in
      (tdiv (c +ℤ carry) (pos 256) ∷ ks, rw (good, run) refl, (b, k, whole, next, carried))

  abbrev pub bytes : ℕ
  bytes = get_carry_bytes t

  -- The bytes that are kept of a number that is not above two offsets.
  pub bytes_sum :
      (w : ℕ)
      → IsCarryable
      → w ≤ offset * 2
      → (row bytes w).byte0
          + (if ltb 1 bytes then 256 * (row bytes w).byte1 else 0)
          + (if ltb 2 bytes then 65536 * (row bytes w).byte2 else 0)
        ≡ w
  unfolding get_carry_bytes
  bytes_sum w small le = elim (Bool-cases (ltb (offset * 2) 256)) [
    | inl one ↦ rw one (ground (arith, one))
    | inr more ↦ elim (Bool-cases (ltb (offset * 2 / 256) 256)) [
      | inl two ↦ rw (more, two) (ground (arith, two))
      | inr three ↦ rw (more, three) (omega arith)
    ]
  ]

  pub carry_offset-pos : IsCarryable → carry_offset t ≡ pos offset
  unfolding carry_offset int32
  carry_offset-pos small = ground (arith, small)

  pub big_carry-row :
      (k : ℤ)
      → IsCarryable
      → IsCarry k
      → (checked (k +ℤ pos offset) ≡ ok (k +ℤ pos offset))
        × (big_carry bytes (pos offset) (row bytes (wrap (2 ^ 32) (k +ℤ pos offset))) ≡ ok k)
  unfolding get_carry_offset wrap
  big_carry-row k small (h, l) =
      let (sh, sl) = +ℤ_bounds k (pos offset) in
      let w = pos_part (k +ℤ pos offset) in
      let sign = one_sign (k +ℤ pos offset) in
      let parts = +ℤ_parts k (pos offset) in
      let e : k +ℤ pos offset ≡ pos w = ext _ _ (omega (arith, +ℤ_parts)) in
      let word : w % 2 ^ 32 ≡ w = omega arith in
      let back : pos w -ℤ pos offset ≡ k = ext _ _ (omega (arith, +ℤ_parts, -ℤ_parts)) in
      (
        checked-ok (2 ^ 24) (2 ^ 24) (k +ℤ pos offset) (omega arith) (omega arith)
            (omega arith, omega arith),
        rw
            (
              e,
              word,
              bytes_sum w small (omega arith),
              checked-ok (2 ^ 24) 0 (pos w) (omega arith) (omega arith) (omega arith, omega arith),
              back,
              checked-ok (2 ^ 24) (2 ^ 24) k (omega arith) (omega arith) (omega arith, omega arith),
            )
            refl,
      )
