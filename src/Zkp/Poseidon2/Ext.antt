-- ===== src/Zkp/Poseidon2/Ext.antt =====
-- The shortcut for the big matrix.
use zirgen.Prelude.{ℕ, ◌+◌, ◌*◌, ◌%◌, ◌^◌, ◌≡◌, refl, ◌∙◌, ap₂, arith, List, [], ◌∷◌}
use zirgen.Fp.{p}
use zirgen.Zkp.Poseidon2.{Four, multiply_by_4x4_circulant, multiply_by_m_ext}
use zirgen.Zkp.Poseidon2.Laws.{IsReduced, multiply_by_4x4_circulant-IsCirculant}

-- A reduced sum and one more reduced number.
abbrev more : ℕ → ℕ → ℕ
more acc x = (acc + x) % 2 ^ 32 % p

more-mod : (acc s x r : ℕ) → acc ≡ s % p → x ≡ r % p → more acc x ≡ (s + r) % p
more-mod acc s x r e h = omega arith

once : (x r : ℕ) → x ≡ r % p → x % p ≡ r % p
once x r e = omega arith

abbrev row_a : Four → ℕ
row_a v = 5 * v.a + 7 * v.b + v.c + 3 * v.d

abbrev row_b : Four → ℕ
row_b v = 4 * v.a + 6 * v.b + v.c + v.d

abbrev row_c : Four → ℕ
row_c v = v.a + 3 * v.b + 5 * v.c + 7 * v.d

abbrev row_d : Four → ℕ
row_d v = v.a + v.b + 4 * v.c + 6 * v.d

module _ (u v w x y z : Four) where
  -- The 24 cells.
  abbrev pub six : List ℕ
  six =
      u.a ∷ u.b ∷ u.c ∷ u.d ∷ v.a ∷ v.b ∷ v.c ∷ v.d ∷ w.a ∷ w.b ∷ w.c ∷ w.d ∷ x.a ∷ x.b ∷ x.c ∷ x.d
      ∷ y.a ∷ y.b ∷ y.c ∷ y.d ∷ z.a ∷ z.b ∷ z.c ∷ z.d ∷ []

  -- A row of the big matrix: the small matrix stands in it six times, and twice on the diagonal.
  abbrev big_row : (Four → ℕ) → Four → ℕ
  big_row row own = (row own + (0 + row u + row v + row w + row x + row y + row z)) % p

  abbrev big_rows : Four → List ℕ → List ℕ
  big_rows own rest =
      big_row row_a own ∷ big_row row_b own ∷ big_row row_c own ∷ big_row row_d own ∷ rest

  abbrev pub matrix_product : List ℕ
  matrix_product = big_rows u (big_rows v (big_rows w (big_rows x (big_rows y (big_rows z [])))))

  abbrev pub AllReduced : Type 0
  AllReduced = IsReduced u × IsReduced v × IsReduced w × IsReduced x × IsReduced y × IsReduced z

  -- What the loops leave in a cell, for the entry `f` of the chunks.
  abbrev left : (Four → ℕ) → Four → ℕ
  left f own =
      let c : Four → ℕ = λ q. f (multiply_by_4x4_circulant q) % p in
      more (more 0 (c own))
        (more (more (more (more (more (more 0 (c u)) (c v)) (c w)) (c x)) (c y)) (c z))

  left-big_row :
      (f row : Four → ℕ) (own : Four)
      → ((q : Four) → IsReduced q → f (multiply_by_4x4_circulant q) ≡ row q % p)
      → IsReduced own
      → AllReduced
      → left f own ≡ big_row row own
  left-big_row f row own h ro (ru, rv, rw', rx, ry, rz) =
      let c : Four → ℕ = λ q. f (multiply_by_4x4_circulant q) % p in
      let one : (q : Four) → IsReduced q → c q ≡ row q % p =
        λ q r. once (f (multiply_by_4x4_circulant q)) (row q) (h q r) in
      let s0 = more-mod 0 0 (c u) (row u) (omega arith) (one u ru) in
      let s1 = more-mod _ _ (c v) (row v) s0 (one v rv) in
      let s2 = more-mod _ _ (c w) (row w) s1 (one w rw') in
      let s3 = more-mod _ _ (c x) (row x) s2 (one x rx) in
      let s4 = more-mod _ _ (c y) (row y) s3 (one y ry) in
      let s5 = more-mod _ _ (c z) (row z) s4 (one z rz) in
      let mine : more 0 (c own) ≡ row own % p =
        more-mod 0 0 (c own) (row own) (omega arith) (one own ro) ∙ omega arith in
      more-mod (more 0 (c own)) (row own) _ _ mine s5

  left-big_rows :
      (own : Four) (rest rest' : List ℕ)
      → IsReduced own
      → AllReduced
      → rest ≡ rest'
      → left (λ q. q.a) own ∷ left (λ q. q.b) own ∷ left (λ q. q.c) own ∷ left (λ q. q.d) own ∷ rest
        ≡ big_rows own rest'
  left-big_rows own rest rest' ro all e =
      let rows = multiply_by_4x4_circulant-IsCirculant in
      ap₂ (λ n ns. n ∷ ns) (left-big_row (λ q. q.a) row_a own (λ q r. (rows q r).row_a) ro all)
        (ap₂ (λ n ns. n ∷ ns) (left-big_row (λ q. q.b) row_b own (λ q r. (rows q r).row_b) ro all)
          (ap₂ (λ n ns. n ∷ ns) (left-big_row (λ q. q.c) row_c own (λ q r. (rows q r).row_c) ro all)
            (ap₂ (λ n ns. n ∷ ns)
              (left-big_row (λ q. q.d) row_d own (λ q r. (rows q r).row_d) ro all) e)))

  -- For cells that are residues, the shortcut of `multiply_by_m_ext` is the product with the matrix
  -- that has the small circulant matrix in each place, and twice on the diagonal, modulo the prime.
  pub multiply_by_m_ext-matrix_product : AllReduced → multiply_by_m_ext six ≡ matrix_product
  unfolding multiply_by_m_ext
  multiply_by_m_ext-matrix_product all =
      let (ru, rv, rw', rx, ry, rz) = all in
      left-big_rows u _ _ ru all (
        left-big_rows v _ _ rv all (
          left-big_rows w _ _ rw' all (
            left-big_rows x _ _ rx all
              (left-big_rows y _ _ ry all (left-big_rows z [] [] rz all refl)))))
