-- ===== src/Lexer/Tests.antt =====
-- Texts read to their end, and the laws at concrete texts.
use zirgen.Prelude.{ℕ, zero, suc, List, [], ◌∷◌, none, some, ◌≡◌, refl, arith}
use zirgen.Lexer.Token.{
  Token, codes, tok_component, tok_ident, tok_char, tok_define, tok_literal, tok_range, tok_eof,
  tok_string_literal,
}
use zirgen.Lexer.State.{Lexer, start}
use zirgen.Lexer.Reader.{open_buffer}
use zirgen.Lexer.Reader.Laws.{IsWf}
use zirgen.Lexer.Skip.{skip_whitespace}
use zirgen.Lexer.Skip.Laws.{IsSkipped, skip_whitespace-IsSkipped}
use zirgen.Lexer.Scan.{string_text}
use zirgen.Lexer.Scan.Laws.{Unclosed, string_text-never_ends}
use zirgen.Lexer.Take.{take_token}

tokens : ℕ → Lexer → List Token
tokens zero l = []
tokens (suc n) l = elim (take_token l) [ none ↦ [] | some (t, next) ↦ t ∷ tokens n next ]

text :
    tokens 13 (start (codes "component A1() { /* c */ x := 0x1f..\"s\" } // end\n"))
    ≡ tok_component
      ∷ tok_ident
      ∷ tok_char b'('
      ∷ tok_char b')'
      ∷ tok_char b'{'
      ∷ tok_ident
      ∷ tok_define
      ∷ tok_literal
      ∷ tok_range
      ∷ tok_string_literal
      ∷ tok_char b'}'
      ∷ tok_eof
      ∷ tok_eof
      ∷ []
unfolding tokens take_token start
text = refl

opened-IsWf : IsWf (open_buffer (codes "  a"))
opened-IsWf = record { inside = omega arith; nothing_extra = λ _. refl; count = omega arith }

skip_whitespace-IsSkipped_example :
    IsSkipped (open_buffer (codes "  a")) (skip_whitespace (open_buffer (codes "  a")))
skip_whitespace-IsSkipped_example =
    skip_whitespace-IsSkipped (open_buffer (codes "  a")) opened-IsWf

all_open : Unclosed (start (codes "ab")).source
unfolding start
all_open zero p = refl
all_open (suc zero) p = refl
all_open (suc (suc i)) p = refl

string_text-never_ends_example : string_text 7 b'x' (start (codes "ab")) ≡ none
string_text-never_ends_example = string_text-never_ends (start (codes "ab")) 7 b'x' all_open refl
