-- ===== src/Ast/Tests.antt =====
-- Instances at concrete trees and strings.
use zirgen.Prelude.{arith, ℕ, List, [], ◌++◌, Option, none, some, Bool, true, false, refl, ◌≡◌}
use zirgen.Lexer.Token.{codes}
use zirgen.Ast.{Expression, construct, ident, literal, switch, expression, no_expressions}
use zirgen.Ast.Equal.{compare}
use zirgen.Ast.Print.{emit_string}
use zirgen.Ast.Print.Laws.{read_string, read_string-emit_string}

abbrev mux : ℕ → Bool → Expression
mux place is_major =
    switch (record { buf = []; position = place })
      (ident (record { buf = []; position = 7 }) (codes "x"))
      (expression (literal (record { buf = []; position = 8 }) 3) no_expressions) is_major

same_muxes : compare (mux 1 true) (mux 2 false) ≡ some true
unfolding compare
same_muxes = refl

abbrev call_of : ℕ → Expression
call_of n =
    construct (record { buf = []; position = 1 })
      (ident (record { buf = []; position = 1 }) (codes "f"))
      (expression (literal (record { buf = []; position = 3 }) n) no_expressions)

-- Two constructions that differ are not told apart: an assertion fails.
failed_assertion : compare (call_of 1) (call_of 2) ≡ none
unfolding compare
failed_assertion = refl

-- A quote and a backslash in the text.
read_string-emit_string_example :
    ◌≡◌ {A = Option (List ℕ × List ℕ)}
      (read_string (emit_string (codes "a\"b\\c") ++ codes ",1"))
      (some (codes "a\"b\\c", codes ",1"))
read_string-emit_string_example =
    read_string-emit_string (codes "a\"b\\c") (codes ",1") (omega arith)

-- A line feed is printed as it is, which JSON does not allow.
line_feed : read_string (emit_string (codes "\n")) ≡ none
unfolding read_string emit_string
line_feed = refl
