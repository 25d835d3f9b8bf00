-- ===== src/Lexer/Reader/Laws.antt =====
-- Taking a character and putting it back.
use zirgen.Prelude.{
  suc, ◌+◌, ◌^◌, ◌≤◌, ◌<◌, ◌≡◌, refl, length, get_or, arith, Bool-cases, inl, inr, ◌⊎◌,
}
use zirgen.Lexer.Reader.{Reader, peek, take, unget, eof}

-- The position is in the buffer, or at its end where `extra` counts what was taken beyond it.
pub record IsWf (r : Reader) : Type 0 where
  pub inside : r.position ≤ length r.buf
  pub nothing_extra : r.position < length r.buf → r.extra ≡ 0
  pub count : r.extra + 1 < 2 ^ 32

pub take-peek : (r : Reader) → (take r).0 ≡ peek r
unfolding take peek
take-peek r = elim (Bool-cases (eof r)) [ inl e ↦ rw (e) refl | inr e ↦ rw (e) refl ]

-- A character that is taken and put back leaves the reader as it was.
pub unget-take : (r : Reader) → IsWf r → unget (take r).1 ≡ r
unfolding take unget
unget-take r w = elim (Bool-cases (eof r)) [
  | inl e ↦ rw (e) (ground (arith, w.count))
  | inr e ↦ rw (e) (ground (arith, w.nothing_extra, w.inside))
]

-- The next character of the buffer, or 0 at its end.
pub peek-in : (r : Reader) → r.position < length r.buf → peek r ≡ get_or r.buf r.position 0
unfolding peek
peek-in r h = ground arith

pub peek-end : (r : Reader) → r.position ≡ length r.buf → peek r ≡ 0
unfolding peek
peek-end r h = ground arith

pub take-in :
    (r : Reader)
    → r.position < length r.buf
    → take r ≡ (get_or r.buf r.position 0, record r { position = suc r.position })
unfolding take
take-in r h = ground arith

pub take-cases : (r : Reader) → IsWf r → ((take r).0 ≡ 0) ⊎ (r.position < length r.buf)
unfolding take
take-cases r w = ground (arith, w.inside)

pub advance-IsWf :
    (r : Reader)
    → IsWf r
    → r.position < length r.buf
    → IsWf (record r { position = suc r.position })
advance-IsWf r w h = record {
  inside = omega arith;
  nothing_extra = λ _. w.nothing_extra h;
  count = w.count;
}
