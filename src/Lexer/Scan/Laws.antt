-- ===== src/Lexer/Scan/Laws.antt =====
-- The loop over the characters of a string literal.
use zirgen.Prelude.{
  ℕ, zero, suc, ◌≤◌, ◌≡◌, refl, Bool, false, none, ◌==◌, ◌||◌, get_or, Bool-cases, inl, inr, arith,
}
use zirgen.Lexer.Reader.{Reader, take, eof}
use zirgen.Lexer.State.{Lexer, take_next_char}
use zirgen.Lexer.Scan.{push, string_text}

-- The characters that end a string: the quote, and the line feed that is an error.
abbrev pub closes : ℕ → Bool
closes c = c == b'"' || c == b'\n'

-- None of them stands in the rest of the buffer. (`get_or` gives 0 beyond its end.)
abbrev pub Unclosed : Reader → Type 0
Unclosed r = (i : ℕ) → r.position ≤ i → closes (get_or r.buf i 0) ≡ false

take-Unclosed : (r : Reader) → Unclosed r → closes (take r).0 ≡ false
unfolding take
take-Unclosed r u = elim (Bool-cases (eof r)) [
  | inl e ↦ rw (e) refl
  | inr e ↦ rw (e) (u r.position (omega arith))
]

next-Unclosed : (r : Reader) → Unclosed r → Unclosed (take r).1
unfolding take
next-Unclosed r u = elim (Bool-cases (eof r)) [
  | inl e ↦ rw (e) u
  | inr e ↦ rw (e) (λ i p. u i (omega arith))
]

-- The loop does not end on a string that is not closed before the end of its buffer: no number of
-- rounds is enough.
pub string_text-never_ends :
    (l : Lexer) (fuel c : ℕ) → Unclosed l.source → closes c ≡ false → string_text fuel c l ≡ none
unfolding string_text
string_text-never_ends l zero c u h = refl
string_text-never_ends l (suc fuel) c u h =
    let rest =
      string_text-never_ends (take_next_char (push c l)).1 fuel (take_next_char (push c l)).0
        (next-Unclosed l.source u) (take-Unclosed l.source u) in
    ground (arith, rest, h)
