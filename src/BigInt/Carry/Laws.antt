-- ===== src/BigInt/Carry/Laws.antt =====
-- What `EqualZeroOp` puts out.
use mathlib.Core.Path.{subst}
use zirgen.Prelude.{
  sym, ℕ, zero, map, suc, ◌+◌, ◌*◌, ◌/◌, ◌%◌, ◌^◌, ◌≤◌, ◌<◌, ◌≡◌, ◌⊎◌, ◌≢◌, refl, ap, ◌∙◌, ltb,
  Bool-cases, inl, inr, List, [], ◌∷◌, arith,
}
use zirgen.Prelude.Result.{Result, ok, throws}
use zirgen.Word.Signed.{ℤ, pos, ◌*ℤ◌, wrap}
use zirgen.BigInt.Int.{
  pos_part, neg_part, ◌+ℤ◌, ◌-ℤ◌, ext, +ℤ_parts, -ℤ_parts, +ℤ_bounds, -ℤ_bounds, pos_part-*ℤ,
  neg_part-*ℤ,
}
use zirgen.BigInt.ApInt.{ApInt, IsApInt, to_ap_int}
use zirgen.BigInt.ApInt.Laws.{IsInt32, is_nonzero-value}
use zirgen.BigInt.Types.{BigIntType, get_carry_offset, get_carry_bytes}
use zirgen.BigInt.Poly.{Failure, BytePoly, nonzero}
use zirgen.BigInt.Poly.Value.{value}
use zirgen.BigInt.Poly.Loop.{Each-weaken, IsBetween, checked-ok}
use zirgen.BigInt.Poly.Sum.{IsOfType}
use zirgen.BigInt.Carry.Exact.{one_sign}
use zirgen.BigInt.Carry.{Row, row, rows, big_carry, check_carries, equal_zero, columns}
use zirgen.BigInt.Carry.Chain.{
  most, offset, IsCarry, IsCarryable, Carried, carries-Carried, bytes, carry_offset-pos,
  big_carry-row,
}

module _ (t : BigIntType) where
  -- The (bytes t) of a row put the carry and the (offset t) together; those that the type has no column for are
  -- 0, and the fourth is four times the third.
  pub record IsRow (k : ℤ) (r : Row) : Type 0 where
    pub sum : pos (r.byte0 + 256 * r.byte1 + 65536 * r.byte2) ≡ k +ℤ pos (offset t)
    pub small0 : r.byte0 < 256
    pub small1 : r.byte1 < 256
    pub small2 : r.byte2 < 256
    pub one_column : (bytes t) ≡ 1 → r.byte1 ≡ 0
    pub two_columns : (bytes t) < 4 → r.byte2 ≡ 0
    pub fourth : r.byte3 ≡ 4 * r.byte2

  -- The rows are those of carries with which the polynomial is 0, element by element: each element and
  -- the carry before are 256 times the carry, and no carry is left.
  abbrev pub IsCarriedOff : ℤ → BytePoly → List Row → Type 0
  IsCarriedOff carry [] [] = carry ≡ pos 0
  IsCarriedOff carry [] (r ∷ rs) = ⊥
  IsCarriedOff carry (c ∷ poly) [] = ⊥
  IsCarriedOff carry (c ∷ poly) (r ∷ rs) =
      (k : ℤ) × (c +ℤ carry ≡ pos 256 *ℤ k) × IsRow k r × IsCarriedOff k poly rs

  row_of-IsRow :
      (w : ℕ) (k : ℤ)
      → IsCarryable t
      → w ≤ (offset t) * 2
      → k +ℤ pos (offset t) ≡ pos w
      → IsRow k (row (bytes t) w)
  unfolding get_carry_bytes
  row_of-IsRow w k small le e = elim (Bool-cases (ltb ((offset t) * 2) 256)) [
    | inl one ↦ rw one (record {
      sum = ap pos (ground (arith, one)) ∙ sym e;
      small0 = omega arith;
      small1 = omega arith;
      small2 = omega arith;
      one_column = λ h. refl;
      two_columns = λ h. refl;
      fourth = refl;
    })
    | inr more ↦ elim (Bool-cases (ltb ((offset t) * 2 / 256) 256)) [
      | inl two ↦
          let count : (bytes t) ≡ 2 = rw (more, two) refl in
          rw (more, two)
            (record {
              sum = ap pos (ground (arith, two)) ∙ sym e;
              small0 = omega arith;
              small1 = omega arith;
              small2 = omega arith;
              one_column = λ h. absurd (omega (arith, h, count));
              two_columns = λ h. refl;
              fourth = refl;
            })
      | inr three ↦
          let count : (bytes t) ≡ 4 = rw (more, three) refl in
          rw (more, three)
            (record {
              sum = ap pos (omega arith) ∙ sym e;
              small0 = omega arith;
              small1 = omega arith;
              small2 = omega arith;
              one_column = λ h. absurd (omega (arith, h, count));
              two_columns = λ h. absurd (omega (arith, h, count));
              fourth = omega arith;
            })
    ]
  ]

  row-IsRow :
      (k : ℤ)
      → IsCarryable t
      → IsCarry t k
      → IsRow k (row (bytes t) (wrap (2 ^ 32) (k +ℤ pos (offset t))))
  unfolding get_carry_offset wrap
  row-IsRow k small (h, l) =
      let (sh, sl) = +ℤ_bounds k (pos (offset t)) in
      let w = pos_part (k +ℤ pos (offset t)) in
      let sign = one_sign (k +ℤ pos (offset t)) in
      let parts = +ℤ_parts k (pos (offset t)) in
      let e : k +ℤ pos (offset t) ≡ pos w = ext _ _ (omega (arith, +ℤ_parts)) in
      let word : w % 2 ^ 32 ≡ w = omega arith in
      let at : wrap (2 ^ 32) (k +ℤ pos (offset t)) ≡ w = ap (wrap (2 ^ 32)) e ∙ word in
      subst (λ (v : ℕ). IsRow k (row (bytes t) v)) (sym at) (row_of-IsRow w k small (omega arith) e)

  -- The (bytes t) of each carry stand for it.
  abbrev Stand : List Row → List ℤ → Type 0
  Stand [] [] = Unit
  Stand [] (k ∷ ks) = ⊥
  Stand (r ∷ rs) [] = ⊥
  Stand (r ∷ rs) (k ∷ ks) = (big_carry (bytes t) (pos (offset t)) r ≡ ok k) × Stand rs ks

  rows-Stand :
      (carry : ℤ) (poly : BytePoly) (ks : List ℤ)
      → IsCarryable t
      → Carried t carry poly ks
      → (rs : List Row) × (rows (bytes t) (pos (offset t)) ks ≡ ok rs)
        × Stand rs ks
        × IsCarriedOff carry poly rs
  unfolding rows
  rows-Stand carry [] [] small c = ([], refl, tt, c)
  rows-Stand carry [] (k ∷ ks) small c = absurd c
  rows-Stand carry (x ∷ poly) [] small c = absurd c
  rows-Stand carry (x ∷ poly) (k ∷ ks) small (b, q, e, next, c) =
      let (good, stands) = big_carry-row t k small next in
      let (rs, run, stand, size) = rows-Stand k poly ks small c in
      (
        row (bytes t) (wrap (2 ^ 32) (k +ℤ pos (offset t))) ∷ rs,
        rw (good, run) refl,
        (stands, stand),
        (k, e, row-IsRow k small next, size),
      )

  difference : (c carry k : ℤ) → c +ℤ carry ≡ pos 256 *ℤ k → c -ℤ pos 256 *ℤ k +ℤ carry ≡ pos 0
  difference c carry k e =
      let h = ap pos_part e in
      let l = ap neg_part e in ext _ _ (omega (arith, +ℤ_parts, -ℤ_parts, h, l))

  check_carries-passes :
      (carry : ℤ) (poly : BytePoly) (ks : List ℤ) (rs : List Row)
      → IsCarryable t
      → Carried t carry poly ks
      → Stand rs ks
      → check_carries (bytes t) (pos (offset t)) carry poly rs ≡ ok tt
  unfolding check_carries get_carry_offset
  check_carries-passes carry [] [] [] small c s = refl
  check_carries-passes carry [] [] (r ∷ rs) small c s = absurd s
  check_carries-passes carry [] (k ∷ ks) rs small c s = absurd c
  check_carries-passes carry (x ∷ poly) [] rs small c s = absurd c
  check_carries-passes carry (x ∷ poly) (k ∷ ks) [] small c s = absurd s
  check_carries-passes carry (x ∷ poly) (k ∷ ks) (r ∷ rs) small ((xh, xl), (qh, ql), e, (kh, kl), c)
        (stands, s) =
      let zero_left = difference x carry k e in
      let h = ap pos_part zero_left in
      let scaled : IsBetween (256 * (most t)) (256 * (most t)) (pos 256 *ℤ k) =
        (omega (arith, pos_part-*ℤ), omega (arith, neg_part-*ℤ)) in
      let (dh, dl) = -ℤ_bounds x (pos 256 *ℤ k) in
      let apart : IsBetween (2 ^ 30) (2 ^ 30) (x -ℤ pos 256 *ℤ k) = (omega arith, omega arith) in
      rw
        (
          stands,
          checked-ok (256 * (most t)) (256 * (most t)) (pos 256 *ℤ k) (omega arith) (omega arith)
              scaled,
          checked-ok (2 ^ 30) (2 ^ 30) (x -ℤ pos 256 *ℤ k) (omega arith) (omega arith) apart,
          zero_left,
        )
        (check_carries-passes k poly ks rs small c s)

  -- The columns of a type with this many.
  abbrev pub first_columns : ℕ → List Row → List BytePoly
  first_columns (suc zero) rs = map (λ r. pos r.byte0) rs ∷ []
  first_columns (suc (suc zero)) rs = map (λ r. pos r.byte0) rs ∷ map (λ r. pos r.byte1) rs ∷ []
  first_columns n rs =
      map (λ r. pos r.byte0) rs
      ∷ map (λ r. pos r.byte1) rs
      ∷ map (λ r. pos r.byte2) rs
      ∷ map (λ r. pos r.byte3) rs
      ∷ []

  columns-first : (rs : List Row) → columns (bytes t) rs ≡ first_columns (bytes t) rs
  unfolding get_carry_bytes
  columns-first rs = elim (Bool-cases (ltb ((offset t) * 2) 256)) [
    | inl one ↦ rw one refl
    | inr more ↦ elim (Bool-cases (ltb ((offset t) * 2 / 256) 256)) [
      | inl two ↦ rw (more, two) refl
      | inr three ↦ rw (more, three) refl
    ]
  ]

  -- What `EqualZeroOp` puts out for a polynomial that stands for 0: one, two or four columns of the
  -- (bytes t) of its carries.
  pub record IsPassed (out : Result Failure (List BytePoly)) (poly : BytePoly) : Type 0 where
    pub rs : List Row
    pub columns_eq : out ≡ ok (first_columns (bytes t) rs)
    pub carried_off : IsCarriedOff (pos 0) poly rs

  -- Over integers that behave as LLVM documents them, and for a type whose doubled carry (offset t) has three
  -- (bytes t): for a polynomial of the type that stands for 0, `EqualZeroOp` puts out the columns of (bytes t)
  -- of carries that take it off element by element, with the (offset t) added; any other polynomial of the
  -- type is refused.
  pub equal_zero-passes :
      {A : Type 0} (api : ApInt A) (Holds : ℕ → A → ℤ → Type 0) (poly : BytePoly)
      → IsApInt api Holds
      → IsCarryable t
      → IsOfType t poly
      → ((value poly ≡ pos 0) × IsPassed (equal_zero api t poly) poly)
        ⊎ ((value poly ≢ pos 0) × (equal_zero api t poly ≡ throws nonzero))
  unfolding equal_zero get_carry_offset
  equal_zero-passes api Holds poly lawful small kind =
      let in_range =
        Each-weaken {B = λ _. IsBetween t.max_pos t.max_neg} {D = λ _. IsInt32} 0 0 poly
          (omega arith) (λ k o q (h, l). (omega arith, omega arith)) kind.bounds in
      let reads = is_nonzero-value api Holds lawful poly in_range in
      elim (Bool-cases (api.is_nonzero (to_ap_int api poly))) [
        | inl other ↦ inr (λ e. let h = reads.1 e in ground (arith, h, other), rw other refl)
        | inr zero_read ↦
            let v = reads.0 zero_read in
            let (ks, run, carried) =
              carries-Carried t (pos 0) poly small (omega arith, omega arith) kind.bounds
                (rw v (ext _ _ (omega (arith, +ℤ_parts)))) in
            let (rs, made, stand, off) = rows-Stand (pos 0) poly ks small carried in
            inl (
              v,
              record {
                rs = rs;
                columns_eq =
                    rw
                      (
                        zero_read,
                        run,
                        carry_offset-pos t small,
                        made,
                        check_carries-passes (pos 0) poly ks rs small carried stand,
                      )
                      (ap ok (columns-first rs));
                carried_off = off;
              },
            )
      ]
