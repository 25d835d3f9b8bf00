-- ===== src/Lexer/Skip/Laws.antt =====
-- After the white space and the comments stands neither.
use zirgen.Prelude.{
  ℕ, zero, suc, ◌-◌, ◌≤◌, ◌<◌, ◌≡◌, refl, sym, ap, ◌∙◌, true, false, length, get_or, Bool-cases,
  inl, inr, arith,
}
use zirgen.Lexer.Reader.{Reader, peek, take}
use zirgen.Lexer.Reader.Laws.{IsWf, unget-take, take-peek, take-in, take-cases, advance-IsWf}
use zirgen.Lexer.Skip.{rounds, is_space, spaces, skip_whitespace}

-- `s` is at the first character from `r` on that is not white space.
pub record IsSkipped (r s : Reader) : Type 0 where
  pub buf : s.buf ≡ r.buf
  pub wf : IsWf s
  pub forward : r.position ≤ s.position
  pub stops : is_space (peek s) ≡ false
  pub skipped : (i : ℕ) → r.position ≤ i → i < s.position → is_space (get_or r.buf i 0) ≡ true

stay : (r : Reader) → IsWf r → is_space (peek r) ≡ false → IsSkipped r r
stay r w e = record {
  buf = refl;
  wf = w;
  forward = omega arith;
  stops = e;
  skipped = λ i p q. absurd (omega (arith, p, q));
}

further :
    (r s : Reader)
    → is_space (get_or r.buf r.position 0) ≡ true
    → IsSkipped (record r { position = suc r.position }) s
    → IsSkipped r s
further r s e k = record {
  buf = k.buf;
  wf = k.wf;
  forward = omega (arith, k.forward);
  stops = k.stops;
  skipped = λ i p q. grind (arith, e, k.skipped);
}

space-in : (r : Reader) → IsWf r → is_space (take r).0 ≡ true → r.position < length r.buf
unfolding is_space
space-in r w e = elim (take-cases r w) [ inl z ↦ cc | inr h ↦ h ]

spaces-IsSkipped :
    (fuel : ℕ) (r : Reader)
    → IsWf r
    → length r.buf - r.position < fuel
    → IsSkipped r (spaces fuel r)
unfolding spaces
spaces-IsSkipped zero r w h = absurd (omega arith)
spaces-IsSkipped (suc fuel) r w h = elim (Bool-cases (is_space (take r).0)) [
  | inl e ↦
      let inside = space-in r w e in
      let took = take-in r inside in
      let next = record r { position = suc r.position } in
      rw (e, took)
        (further r (spaces fuel next) (sym (ap (λ t. is_space t.0) took) ∙ e)
          (spaces-IsSkipped fuel next (advance-IsWf r w inside) (omega arith)))
  | inr e ↦ rw (e, unget-take r w) (stay r w (rw (sym (take-peek r)) e))
]

-- `skipWhitespace` stops at the first character that is not white space.
pub skip_whitespace-IsSkipped : (r : Reader) → IsWf r → IsSkipped r (skip_whitespace r)
unfolding skip_whitespace
skip_whitespace-IsSkipped r w = spaces-IsSkipped (rounds r) r w (omega arith)
