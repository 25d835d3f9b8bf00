-- ===== src/Ast/Equal/Asserts.antt =====
-- The comparison is that without assertions wherever it returns.
use zirgen.Prelude.{Bool, true, false, ◌&&◌, ◌≡◌, refl, sym, Option, none, some}
use zirgen.Lexer.Token.{same_text}
use zirgen.Ast.{
  Expression, Expressions, Statement, Statements, literal, string_literal, ident, lookup, subscript,
  specialize, construct, block, map, reduce, switch, range, back, array_literal, no_expressions,
  expression, definition, declaration, constraint, void, directive, no_statements, statement,
}
use zirgen.Ast.Equal.{
  same, same_all, same_statement, same_body, same_access, and_then, asserting, compare, compare_all,
  compare_statement, compare_body,
}

-- An assertion fails only where the comparison without it is false.
abbrev Agrees : Option Bool → Bool → Type 0
Agrees none b = b ≡ false
Agrees (some a) b = a ≡ b

Agrees-and :
    (o p : Option Bool) (a b : Bool) → Agrees o a → Agrees p b → Agrees (and_then o p) (a && b)
Agrees-and none p a b h k = rw h refl
Agrees-and (some true) p a b h k = rw (sym h) k
Agrees-and (some false) p a b h k = rw (sym h) refl

Agrees-asserting :
    (o p : Option Bool) (a c : Bool)
    → Agrees o a
    → (a ≡ false → c ≡ false)
    → Agrees p c
    → Agrees (asserting o p) c
Agrees-asserting none p a c h out k = out h
Agrees-asserting (some true) p a c h out k = k
Agrees-asserting (some false) p a c h out k = out (sym h)

out_first : {a : Bool} (b : Bool) → a ≡ false → (a && b) ≡ false
out_first b e = rw e refl

out_second : (a : Bool) {b : Bool} → b ≡ false → (a && b) ≡ false
out_second true e = e
out_second false e = refl

mutual
  unfolding same compare

  compare-Agrees : (a b : Expression) → Agrees (compare a b) (same a b)
  compare-Agrees (literal l a0) (literal m b0) = refl
  compare-Agrees (string_literal l a0) (string_literal m b0) = refl
  compare-Agrees (ident l a0) (ident m b0) = refl
  compare-Agrees (lookup l a0 a1) (lookup m b0 b1) =
      (Agrees-and (compare a0 b0) (some (same_text a1 b1)) (same a0 b0) (same_text a1 b1)
        (compare-Agrees a0 b0) refl)
  compare-Agrees (subscript l a0 a1) (subscript m b0 b1) =
      (Agrees-and (compare a0 b0) (compare a1 b1) (same a0 b0) (same a1 b1) (compare-Agrees a0 b0)
        (compare-Agrees a1 b1))
  compare-Agrees (specialize l a0 a1) (specialize m b0 b1) =
      (Agrees-and (compare a0 b0) (compare_all a1 b1) (same a0 b0) (same_all a1 b1)
        (compare-Agrees a0 b0) (compare_all-Agrees a1 b1))
  compare-Agrees (construct l a0 a1) (construct m b0 b1) =
      Agrees-asserting (compare a0 b0)
        (asserting (compare_all a1 b1) (and_then (compare a0 b0) (compare_all a1 b1))) (same a0 b0)
        ((same a0 b0) && (same_all a1 b1)) (compare-Agrees a0 b0) (out_first (same_all a1 b1))
        (Agrees-asserting (compare_all a1 b1) (and_then (compare a0 b0) (compare_all a1 b1))
          (same_all a1 b1) ((same a0 b0) && (same_all a1 b1)) (compare_all-Agrees a1 b1)
          (out_second (same a0 b0))
          (Agrees-and (compare a0 b0) (compare_all a1 b1) (same a0 b0) (same_all a1 b1)
            (compare-Agrees a0 b0) (compare_all-Agrees a1 b1)))
  compare-Agrees (block l a0 a1) (block m b0 b1) =
      (Agrees-and (compare_body a0 b0) (compare a1 b1) (same_body a0 b0) (same a1 b1)
        (compare_body-Agrees a0 b0) (compare-Agrees a1 b1))
  compare-Agrees (map l a0 a1 a2) (map m b0 b1 b2) =
      Agrees-asserting (compare a0 b0)
        (asserting (some (same_text a1 b1)) (
          asserting (compare a2 b2)
            (and_then (compare a0 b0) (and_then (some (same_text a1 b1)) (compare a2 b2)))))
        (same a0 b0) ((same a0 b0) && ((same_text a1 b1) && (same a2 b2))) (compare-Agrees a0 b0)
        (out_first ((same_text a1 b1) && (same a2 b2)))
        (Agrees-asserting (some (same_text a1 b1))
          (asserting (compare a2 b2)
            (and_then (compare a0 b0) (and_then (some (same_text a1 b1)) (compare a2 b2))))
          (same_text a1 b1) ((same a0 b0) && ((same_text a1 b1) && (same a2 b2))) refl
          (λ e. out_second (same a0 b0) (out_first (same a2 b2) e))
          (Agrees-asserting (compare a2 b2)
            (and_then (compare a0 b0) (and_then (some (same_text a1 b1)) (compare a2 b2)))
            (same a2 b2) ((same a0 b0) && ((same_text a1 b1) && (same a2 b2)))
            (compare-Agrees a2 b2) (λ e. out_second (same a0 b0) (out_second (same_text a1 b1) e))
            (Agrees-and (compare a0 b0) (and_then (some (same_text a1 b1)) (compare a2 b2))
              (same a0 b0) ((same_text a1 b1) && (same a2 b2)) (compare-Agrees a0 b0)
              (Agrees-and (some (same_text a1 b1)) (compare a2 b2) (same_text a1 b1) (same a2 b2)
                refl (compare-Agrees a2 b2)))))
  compare-Agrees (reduce l a0 a1 a2) (reduce m b0 b1 b2) =
      (Agrees-and (compare a0 b0) (and_then (compare a1 b1) (compare a2 b2)) (same a0 b0)
        ((same a1 b1) && (same a2 b2)) (compare-Agrees a0 b0)
        (Agrees-and (compare a1 b1) (compare a2 b2) (same a1 b1) (same a2 b2) (compare-Agrees a1 b1)
          (compare-Agrees a2 b2)))
  compare-Agrees (switch l a0 a1 x) (switch m b0 b1 y) =
      (Agrees-and (compare a0 b0) (compare_all a1 b1) (same a0 b0) (same_all a1 b1)
        (compare-Agrees a0 b0) (compare_all-Agrees a1 b1))
  compare-Agrees (range l a0 a1) (range m b0 b1) =
      (Agrees-and (compare a0 b0) (compare a1 b1) (same a0 b0) (same a1 b1) (compare-Agrees a0 b0)
        (compare-Agrees a1 b1))
  compare-Agrees (back l a0 a1) (back m b0 b1) =
      (Agrees-and (compare a0 b0) (compare a1 b1) (same a0 b0) (same a1 b1) (compare-Agrees a0 b0)
        (compare-Agrees a1 b1))
  compare-Agrees (array_literal l a0) (array_literal m b0) = (compare_all-Agrees a0 b0)
  compare-Agrees _ _ = refl

  compare_all-Agrees : (a b : Expressions) → Agrees (compare_all a b) (same_all a b)
  compare_all-Agrees (expression a0 a1) (expression b0 b1) =
      (Agrees-and (compare a0 b0) (compare_all a1 b1) (same a0 b0) (same_all a1 b1)
        (compare-Agrees a0 b0) (compare_all-Agrees a1 b1))
  compare_all-Agrees no_expressions no_expressions = refl
  compare_all-Agrees no_expressions (expression x xs) = refl
  compare_all-Agrees (expression x xs) no_expressions = refl

  compare_statement-Agrees : (a b : Statement) → Agrees (compare_statement a b) (same_statement a b)
  compare_statement-Agrees (definition l a0 a1 a2) (definition m b0 b1 b2) =
      (Agrees-and (some (same_text a0 b0)) (and_then (compare a1 b1) (some (same_access a2 b2)))
        (same_text a0 b0) ((same a1 b1) && (same_access a2 b2)) refl
        (Agrees-and (compare a1 b1) (some (same_access a2 b2)) (same a1 b1) (same_access a2 b2)
          (compare-Agrees a1 b1) refl))
  compare_statement-Agrees (declaration l a0 a1 a2) (declaration m b0 b1 b2) =
      (Agrees-and (some (same_text a0 b0)) (and_then (compare a1 b1) (some (same_access a2 b2)))
        (same_text a0 b0) ((same a1 b1) && (same_access a2 b2)) refl
        (Agrees-and (compare a1 b1) (some (same_access a2 b2)) (same a1 b1) (same_access a2 b2)
          (compare-Agrees a1 b1) refl))
  compare_statement-Agrees (constraint l a0 a1) (constraint m b0 b1) =
      (Agrees-and (compare a0 b0) (compare a1 b1) (same a0 b0) (same a1 b1) (compare-Agrees a0 b0)
        (compare-Agrees a1 b1))
  compare_statement-Agrees (void l a0) (void m b0) = (compare-Agrees a0 b0)
  compare_statement-Agrees (directive l a0 a1) (directive m b0 b1) =
      (Agrees-and (some (same_text a0 b0)) (compare_all a1 b1) (same_text a0 b0) (same_all a1 b1)
        refl (compare_all-Agrees a1 b1))
  compare_statement-Agrees _ _ = refl

  compare_body-Agrees : (a b : Statements) → Agrees (compare_body a b) (same_body a b)
  compare_body-Agrees (statement a0 a1) (statement b0 b1) =
      Agrees-and (compare_statement a0 b0) (compare_body a1 b1) (same_statement a0 b0)
        (same_body a1 b1) (compare_statement-Agrees a0 b0) (compare_body-Agrees a1 b1)
  compare_body-Agrees no_statements no_statements = refl
  compare_body-Agrees no_statements (statement x xs) = refl
  compare_body-Agrees (statement x xs) no_statements = refl
