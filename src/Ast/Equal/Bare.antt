-- ===== src/Ast/Equal/Bare.antt =====
-- What the comparison of two trees looks at, and trees without null pointers.
use zirgen.Prelude.{[], Bool, true, false, ◌&&◌, ◌≡◌, refl}
use zirgen.Lexer.Reader.{Location}
use zirgen.Ast.{
  Expression, Expressions, Statement, Statements, null, literal, string_literal, ident, lookup,
  subscript, specialize, construct, block, map, reduce, switch, range, back, array_literal,
  no_expressions, expression, definition, declaration, constraint, void, directive, no_statements,
  statement,
}

abbrev pub nowhere : Location
nowhere = record { buf = []; position = 0 }

-- The tree without what the comparison does not look at.
unfoldable mutual
  pub bare : Expression → Expression
  bare null = null
  bare (literal l a) = literal nowhere a
  bare (string_literal l a) = string_literal nowhere a
  bare (ident l a) = ident nowhere a
  bare (lookup l a n) = lookup nowhere (bare a) n
  bare (subscript l a i) = subscript nowhere (bare a) (bare i)
  bare (specialize l a xs) = specialize nowhere (bare a) (bare_all xs)
  bare (construct l a xs) = construct nowhere (bare a) (bare_all xs)
  bare (block l ss a) = block nowhere (bare_body ss) (bare a)
  bare (map l a n f) = map nowhere (bare a) n (bare f)
  bare (reduce l a i t) = reduce nowhere (bare a) (bare i) (bare t)
  bare (switch l a xs x) = switch nowhere (bare a) (bare_all xs) false
  bare (range l a i) = range nowhere (bare a) (bare i)
  bare (back l a i) = back nowhere (bare a) (bare i)
  bare (array_literal l xs) = array_literal nowhere (bare_all xs)

  pub bare_all : Expressions → Expressions
  bare_all no_expressions = no_expressions
  bare_all (expression x xs) = expression (bare x) (bare_all xs)

  pub bare_statement : Statement → Statement
  bare_statement (definition l n a x) = definition nowhere n (bare a) x
  bare_statement (declaration l n a x) = declaration nowhere n (bare a) x
  bare_statement (constraint l a i) = constraint nowhere (bare a) (bare i)
  bare_statement (void l a) = void nowhere (bare a)
  bare_statement (directive l n xs) = directive nowhere n (bare_all xs)

  pub bare_body : Statements → Statements
  bare_body no_statements = no_statements
  bare_body (statement s ss) = statement (bare_statement s) (bare_body ss)

-- No pointer of the tree is null.
unfoldable mutual
  pub whole : Expression → Bool
  whole null = false
  whole (literal l a0) = true
  whole (string_literal l a0) = true
  whole (ident l a0) = true
  whole (lookup l a0 a1) = whole a0
  whole (subscript l a0 a1) = (whole a0 && whole a1)
  whole (specialize l a0 a1) = (whole a0 && whole_all a1)
  whole (construct l a0 a1) = (whole a0 && whole_all a1)
  whole (block l a0 a1) = (whole_body a0 && whole a1)
  whole (map l a0 a1 a2) = (whole a0 && whole a2)
  whole (reduce l a0 a1 a2) = (whole a0 && (whole a1 && whole a2))
  whole (switch l a0 a1 a2) = (whole a0 && whole_all a1)
  whole (range l a0 a1) = (whole a0 && whole a1)
  whole (back l a0 a1) = (whole a0 && whole a1)
  whole (array_literal l a0) = whole_all a0

  pub whole_all : Expressions → Bool
  whole_all no_expressions = true
  whole_all (expression a0 a1) = (whole a0 && whole_all a1)

  pub whole_statement : Statement → Bool
  whole_statement (definition l a0 a1 a2) = whole a1
  whole_statement (declaration l a0 a1 a2) = whole a1
  whole_statement (constraint l a0 a1) = (whole a0 && whole a1)
  whole_statement (void l a0) = whole a0
  whole_statement (directive l a0 a1) = whole_all a1

  pub whole_body : Statements → Bool
  whole_body no_statements = true
  whole_body (statement a0 a1) = (whole_statement a0 && whole_body a1)

pub both_true : (a b : Bool) → (a && b) ≡ true → (a ≡ true) × (b ≡ true)
both_true true b h = (refl, h)
both_true false b h = cc
