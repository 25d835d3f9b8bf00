-- ===== src/Ast/Equal.antt =====
-- `operator==` of the nodes, with its assertions, which the repository's build keeps: `none` is an
-- assertion that fails, and ends the program. A comparison that would read through a null pointer,
-- which C++ leaves undefined, is false here.
pub mod Bare
pub mod Asserts
pub mod Sound
pub mod Laws
use zirgen.Prelude.{ℕ, List, [], ◌∷◌, Bool, true, false, ◌==◌, ◌&&◌, Option, none, some}
use zirgen.Lexer.Token.{same_text}
use zirgen.Ast.{
  Access, access_default, access_global, access_public, Expression, Expressions, Statement,
  Statements, Parameter, Kind, Component, Module, null, literal, string_literal, ident, lookup,
  subscript, specialize, construct, block, map, reduce, switch, range, back, array_literal,
  no_expressions, expression, definition, declaration, constraint, void, directive, no_statements,
  statement, object, function, extern, argument, major,
}

unfoldable pub same_access : Access → Access → Bool
same_access access_default access_default = true
same_access access_global access_global = true
same_access access_public access_public = true
same_access _ _ = false

unfoldable pub same_bool : Bool → Bool → Bool
same_bool true b = b
same_bool false true = false
same_bool false false = true

-- The comparison as it would be without assertions: no code of the repository.
unfoldable mutual
  unfolding same_text same_access

  pub same : Expression → Expression → Bool
  same (literal l a) (literal m b) = a == b
  same (string_literal l a) (string_literal m b) = same_text a b
  same (ident l a) (ident m b) = same_text a b
  same (lookup l a n) (lookup m b o) = same a b && same_text n o
  same (subscript l a i) (subscript m b j) = same a b && same i j
  same (specialize l a xs) (specialize m b ys) = same a b && same_all xs ys
  same (construct l a xs) (construct m b ys) = same a b && same_all xs ys
  same (block l ss a) (block m ts b) = same_body ss ts && same a b
  same (map l a n f) (map m b o g) = same a b && (same_text n o && same f g)
  same (reduce l a i t) (reduce m b j u) = same a b && (same i j && same t u)
  same (switch l a xs x) (switch m b ys y) = same a b && same_all xs ys
  same (range l a i) (range m b j) = same a b && same i j
  same (back l a i) (back m b j) = same a b && same i j
  same (array_literal l xs) (array_literal m ys) = same_all xs ys
  same _ _ = false

  pub same_all : Expressions → Expressions → Bool
  same_all no_expressions no_expressions = true
  same_all (expression x xs) (expression y ys) = same x y && same_all xs ys
  same_all _ _ = false

  pub same_statement : Statement → Statement → Bool
  same_statement (definition l n a x) (definition m o b y) =
      same_text n o && (same a b && same_access x y)
  same_statement (declaration l n a x) (declaration m o b y) =
      same_text n o && (same a b && same_access x y)
  same_statement (constraint l a i) (constraint m b j) = same a b && same i j
  same_statement (void l a) (void m b) = same a b
  same_statement (directive l n xs) (directive m o ys) = same_text n o && same_all xs ys
  same_statement _ _ = false

  pub same_body : Statements → Statements → Bool
  same_body no_statements no_statements = true
  same_body (statement s ss) (statement t ts) = same_statement s t && same_body ss ts
  same_body _ _ = false

-- `&&`
abbrev pub and_then : Option Bool → Option Bool → Option Bool
and_then none b = none
and_then (some true) b = b
and_then (some false) b = some false

-- `assert(a)` in front of `b`.
abbrev pub asserting : Option Bool → Option Bool → Option Bool
asserting none b = none
asserting (some true) b = b
asserting (some false) b = none

-- Nodes of different kinds are unequal. A `Switch` is compared without `isMajor`.
unfoldable mutual
  unfolding same_text same_access

  pub compare : Expression → Expression → Option Bool
  compare (literal l a) (literal m b) = some (a == b)
  compare (string_literal l a) (string_literal m b) = some (same_text a b)
  compare (ident l a) (ident m b) = some (same_text a b)
  compare (lookup l a n) (lookup m b o) = and_then (compare a b) (some (same_text n o))
  compare (subscript l a i) (subscript m b j) = and_then (compare a b) (compare i j)
  compare (specialize l a xs) (specialize m b ys) = and_then (compare a b) (compare_all xs ys)
  compare (construct l a xs) (construct m b ys) =
      asserting (compare a b)
        (asserting (compare_all xs ys) (and_then (compare a b) (compare_all xs ys)))
  compare (block l ss a) (block m ts b) = and_then (compare_body ss ts) (compare a b)
  compare (map l a n f) (map m b o g) = asserting (compare a b) (
      asserting (some (same_text n o)) (
        asserting (compare f g)
          (and_then (compare a b) (and_then (some (same_text n o)) (compare f g)))))
  compare (reduce l a i t) (reduce m b j u) =
      and_then (compare a b) (and_then (compare i j) (compare t u))
  compare (switch l a xs x) (switch m b ys y) = and_then (compare a b) (compare_all xs ys)
  compare (range l a i) (range m b j) = and_then (compare a b) (compare i j)
  compare (back l a i) (back m b j) = and_then (compare a b) (compare i j)
  compare (array_literal l xs) (array_literal m ys) = compare_all xs ys
  compare _ _ = some false

  -- `vec_compare`, here and for the statements.
  pub compare_all : Expressions → Expressions → Option Bool
  compare_all no_expressions no_expressions = some true
  compare_all (expression x xs) (expression y ys) = and_then (compare x y) (compare_all xs ys)
  compare_all _ _ = some false

  pub compare_statement : Statement → Statement → Option Bool
  compare_statement (definition l n a x) (definition m o b y) =
      and_then (some (same_text n o)) (and_then (compare a b) (some (same_access x y)))
  compare_statement (declaration l n a x) (declaration m o b y) =
      and_then (some (same_text n o)) (and_then (compare a b) (some (same_access x y)))
  compare_statement (constraint l a i) (constraint m b j) = and_then (compare a b) (compare i j)
  compare_statement (void l a) (void m b) = compare a b
  compare_statement (directive l n xs) (directive m o ys) =
      and_then (some (same_text n o)) (compare_all xs ys)
  compare_statement _ _ = some false

  pub compare_body : Statements → Statements → Option Bool
  compare_body no_statements no_statements = some true
  compare_body (statement s ss) (statement t ts) =
      and_then (compare_statement s t) (compare_body ss ts)
  compare_body _ _ = some false

unfoldable pub same_kind : Kind → Kind → Bool
same_kind object object = true
same_kind function function = true
same_kind extern extern = true
same_kind argument argument = true
same_kind major major = true
same_kind _ _ = false

unfoldable pub same_parameter : Parameter → Parameter → Option Bool
unfolding compare same_text same_bool
same_parameter p q =
    and_then (some (same_text p.name q.name))
      (and_then (compare p.type q.type) (some (same_bool p.is_variadic q.is_variadic)))

unfoldable pub same_parameters : List Parameter → List Parameter → Option Bool
unfolding same_parameter
same_parameters [] [] = some true
same_parameters (p ∷ ps) (q ∷ qs) = and_then (same_parameter p q) (same_parameters ps qs)
same_parameters _ _ = some false

-- The attributes are not compared.
unfoldable pub same_component : Component → Component → Option Bool
unfolding compare same_kind same_text same_parameters
same_component a b = and_then (some (same_kind a.kind b.kind)) (
    and_then (some (same_text a.name b.name)) (
      and_then (same_parameters a.type_params b.type_params)
        (and_then (same_parameters a.params b.params) (compare a.body b.body))))

unfoldable pub same_components : List (Option Component) → List (Option Component) → Option Bool
unfolding same_component
same_components [] [] = some true
same_components (some a ∷ rest) (some b ∷ others) =
    and_then (same_component a b) (same_components rest others)
same_components _ _ = some false

unfoldable pub same_module : Module → Module → Option Bool
unfolding same_components
same_module a b = same_components a.body b.body
