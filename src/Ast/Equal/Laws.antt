-- ===== src/Ast/Equal/Laws.antt =====
-- Two trees are equal when they differ in the locations and in `isMajor` only.
use zirgen.Prelude.{ℕ, List, [], ◌∷◌, Bool, true, ◌==◌, ◌&&◌, ◌≡◌, refl, ap, sym, ◌∙◌, ◌↔◌, ==_iff}
use zirgen.Lexer.Token.{same_text}
use zirgen.Ast.{
  Access, access_default, access_global, access_public, Expression, Expressions, Statement,
  Statements, null, literal, string_literal, ident, lookup, subscript, specialize, construct, block,
  map, reduce, switch, range, back, array_literal, no_expressions, expression, definition,
  declaration, constraint, void, directive, no_statements, statement,
}
use zirgen.Ast.Equal.{same, same_all, same_statement, same_body, same_access}
use zirgen.Ast.Equal.Bare.{
  bare, bare_all, bare_statement, bare_body, whole, whole_all, whole_statement, whole_body,
  both_true,
}
use zirgen.Ast.Equal.Sound.{same→bare}

-- The comparison does not look at what `bare` forgets.
mutual
  unfolding same bare

  bare-same : (a b : Expression) → same a b ≡ same (bare a) (bare b)
  bare-same (literal l a0) (literal m b0) = λ i. (a0 == b0)
  bare-same (string_literal l a0) (string_literal m b0) = λ i. (same_text a0 b0)
  bare-same (ident l a0) (ident m b0) = λ i. (same_text a0 b0)
  bare-same (lookup l a0 a1) (lookup m b0 b1) = λ i. (bare-same a0 b0 i && (same_text a1 b1))
  bare-same (subscript l a0 a1) (subscript m b0 b1) = λ i. (bare-same a0 b0 i && bare-same a1 b1 i)
  bare-same (specialize l a0 a1) (specialize m b0 b1) =
      λ i. (bare-same a0 b0 i && bare-same_all a1 b1 i)
  bare-same (construct l a0 a1) (construct m b0 b1) =
      λ i. (bare-same a0 b0 i && bare-same_all a1 b1 i)
  bare-same (block l a0 a1) (block m b0 b1) = λ i. (bare-same_body a0 b0 i && bare-same a1 b1 i)
  bare-same (map l a0 a1 a2) (map m b0 b1 b2) =
      λ i. (bare-same a0 b0 i && ((same_text a1 b1) && bare-same a2 b2 i))
  bare-same (reduce l a0 a1 a2) (reduce m b0 b1 b2) =
      λ i. (bare-same a0 b0 i && (bare-same a1 b1 i && bare-same a2 b2 i))
  bare-same (switch l a0 a1 a2) (switch m b0 b1 b2) =
      λ i. (bare-same a0 b0 i && bare-same_all a1 b1 i)
  bare-same (range l a0 a1) (range m b0 b1) = λ i. (bare-same a0 b0 i && bare-same a1 b1 i)
  bare-same (back l a0 a1) (back m b0 b1) = λ i. (bare-same a0 b0 i && bare-same a1 b1 i)
  bare-same (array_literal l a0) (array_literal m b0) = λ i. bare-same_all a0 b0 i
  bare-same _ _ = refl

  bare-same_all : (a b : Expressions) → same_all a b ≡ same_all (bare_all a) (bare_all b)
  bare-same_all (expression a0 a1) (expression b0 b1) =
      λ i. (bare-same a0 b0 i && bare-same_all a1 b1 i)
  bare-same_all no_expressions no_expressions = refl
  bare-same_all no_expressions (expression x xs) = refl
  bare-same_all (expression x xs) no_expressions = refl

  bare-same_statement :
      (a b : Statement) → same_statement a b ≡ same_statement (bare_statement a) (bare_statement b)
  bare-same_statement (definition l a0 a1 a2) (definition m b0 b1 b2) =
      λ i. ((same_text a0 b0) && (bare-same a1 b1 i && (same_access a2 b2)))
  bare-same_statement (declaration l a0 a1 a2) (declaration m b0 b1 b2) =
      λ i. ((same_text a0 b0) && (bare-same a1 b1 i && (same_access a2 b2)))
  bare-same_statement (constraint l a0 a1) (constraint m b0 b1) =
      λ i. (bare-same a0 b0 i && bare-same a1 b1 i)
  bare-same_statement (void l a0) (void m b0) = λ i. bare-same a0 b0 i
  bare-same_statement (directive l a0 a1) (directive m b0 b1) =
      λ i. ((same_text a0 b0) && bare-same_all a1 b1 i)
  bare-same_statement _ _ = refl

  bare-same_body : (a b : Statements) → same_body a b ≡ same_body (bare_body a) (bare_body b)
  bare-same_body (statement a0 a1) (statement b0 b1) =
      λ i. (bare-same_statement a0 b0 i && bare-same_body a1 b1 i)
  bare-same_body no_statements no_statements = refl
  bare-same_body no_statements (statement x xs) = refl
  bare-same_body (statement x xs) no_statements = refl

and_true : {a b : Bool} → a ≡ true → b ≡ true → (a && b) ≡ true
and_true p q = λ i. p i && q i

==_self : (a : ℕ) → (a == a) ≡ true
==_self a = (==_iff a a).1 refl

same_text_self : (a : List ℕ) → same_text a a ≡ true
unfolding same_text
same_text_self [] = refl
same_text_self (c ∷ a) = and_true (==_self c) (same_text_self a)

same_access_self : (a : Access) → same_access a a ≡ true
unfolding same_access
same_access_self access_default = refl
same_access_self access_global = refl
same_access_self access_public = refl

mutual
  unfolding same whole

  same-whole : (a : Expression) → whole a ≡ true → same a a ≡ true
  same-whole null h = h
  same-whole (literal l a0) h = ==_self a0
  same-whole (string_literal l a0) h = same_text_self a0
  same-whole (ident l a0) h = same_text_self a0
  same-whole (lookup l a0 a1) h = and_true (same-whole a0 h) (same_text_self a1)
  same-whole (subscript l a0 a1) h =
      let (h0, r0) = both_true (whole a0) (whole a1) h in
      and_true (same-whole a0 h0) (same-whole a1 r0)
  same-whole (specialize l a0 a1) h =
      let (h0, r0) = both_true (whole a0) (whole_all a1) h in
      and_true (same-whole a0 h0) (same_all-whole a1 r0)
  same-whole (construct l a0 a1) h =
      let (h0, r0) = both_true (whole a0) (whole_all a1) h in
      and_true (same-whole a0 h0) (same_all-whole a1 r0)
  same-whole (block l a0 a1) h =
      let (h0, r0) = both_true (whole_body a0) (whole a1) h in
      and_true (same_body-whole a0 h0) (same-whole a1 r0)
  same-whole (map l a0 a1 a2) h =
      let (h0, r0) = both_true (whole a0) (whole a2) h in
      and_true (same-whole a0 h0) (and_true (same_text_self a1) (same-whole a2 r0))
  same-whole (reduce l a0 a1 a2) h =
      let (h0, r0) = both_true (whole a0) ((whole a1 && whole a2)) h in
      let (h1, r1) = both_true (whole a1) (whole a2) r0 in
      and_true (same-whole a0 h0) (and_true (same-whole a1 h1) (same-whole a2 r1))
  same-whole (switch l a0 a1 a2) h =
      let (h0, r0) = both_true (whole a0) (whole_all a1) h in
      and_true (same-whole a0 h0) (same_all-whole a1 r0)
  same-whole (range l a0 a1) h =
      let (h0, r0) = both_true (whole a0) (whole a1) h in
      and_true (same-whole a0 h0) (same-whole a1 r0)
  same-whole (back l a0 a1) h =
      let (h0, r0) = both_true (whole a0) (whole a1) h in
      and_true (same-whole a0 h0) (same-whole a1 r0)
  same-whole (array_literal l a0) h = same_all-whole a0 h

  same_all-whole : (a : Expressions) → whole_all a ≡ true → same_all a a ≡ true
  same_all-whole no_expressions h = refl
  same_all-whole (expression a0 a1) h =
      let (h0, r0) = both_true (whole a0) (whole_all a1) h in
      and_true (same-whole a0 h0) (same_all-whole a1 r0)

  same_statement-whole : (a : Statement) → whole_statement a ≡ true → same_statement a a ≡ true
  same_statement-whole (definition l a0 a1 a2) h =
      and_true (same_text_self a0) (and_true (same-whole a1 h) (same_access_self a2))
  same_statement-whole (declaration l a0 a1 a2) h =
      and_true (same_text_self a0) (and_true (same-whole a1 h) (same_access_self a2))
  same_statement-whole (constraint l a0 a1) h =
      let (h0, r0) = both_true (whole a0) (whole a1) h in
      and_true (same-whole a0 h0) (same-whole a1 r0)
  same_statement-whole (void l a0) h = same-whole a0 h
  same_statement-whole (directive l a0 a1) h = and_true (same_text_self a0) (same_all-whole a1 h)

  same_body-whole : (a : Statements) → whole_body a ≡ true → same_body a a ≡ true
  same_body-whole no_statements h = refl
  same_body-whole (statement a0 a1) h =
      let (h0, r0) = both_true (whole_statement a0) (whole_body a1) h in
      and_true (same_statement-whole a0 h0) (same_body-whole a1 r0)

-- For a tree without null pointers, `operator==` of two expressions is true exactly when they differ
-- in the locations and in `isMajor` of a mux at most.
pub same_iff : (a b : Expression) → whole a ≡ true → (same a b ≡ true) ↔ (bare a ≡ bare b)
same_iff a b w = (
  same→bare a b,
  λ p. bare-same a b ∙ ap (same (bare a)) (sym p) ∙ sym (bare-same a a) ∙ same-whole a w,
)
