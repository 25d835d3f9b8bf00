-- ===== src/Ast/Equal/Sound.antt =====
-- Trees that compare equal agree in what the comparison looks at.
use zirgen.Prelude.{ℕ, List, [], ◌∷◌, true, false, ◌==◌, ◌&&◌, ◌≡◌, refl, ap₂, ==_iff}
use zirgen.Lexer.Token.{same_text}
use zirgen.Ast.{
  Access, access_default, access_global, access_public, Expression, Expressions, Statement,
  Statements, literal, string_literal, ident, lookup, subscript, specialize, construct, block, map,
  reduce, switch, range, back, array_literal, no_expressions, expression, definition, declaration,
  constraint, void, directive, no_statements, statement,
}
use zirgen.Ast.Equal.{same, same_all, same_statement, same_body, same_access}
use zirgen.Ast.Equal.Bare.{nowhere, bare, bare_all, bare_statement, bare_body, both_true}

same_text→eq : (a b : List ℕ) → same_text a b ≡ true → a ≡ b
unfolding same_text
same_text→eq [] [] h = refl
same_text→eq [] (c ∷ b) h = cc
same_text→eq (c ∷ a) [] h = cc
same_text→eq (c ∷ a) (d ∷ b) h =
    let (p, q) = both_true (c == d) (same_text a b) h in
    ap₂ (λ (x : ℕ) y. x ∷ y) ((==_iff c d).0 p) (same_text→eq a b q)

same_access→eq : (a b : Access) → same_access a b ≡ true → a ≡ b
unfolding same_access
same_access→eq access_default access_default h = refl
same_access→eq access_global access_global h = refl
same_access→eq access_public access_public h = refl
same_access→eq _ _ h = cc

mutual
  unfolding same bare

  pub same→bare : (a b : Expression) → same a b ≡ true → bare a ≡ bare b
  same→bare (literal l a0) (literal m b0) h =
      let p_a0 = (==_iff a0 b0).0 h in λ i. literal nowhere (p_a0 i)
  same→bare (string_literal l a0) (string_literal m b0) h =
      let p_a0 = same_text→eq a0 b0 h in λ i. string_literal nowhere (p_a0 i)
  same→bare (ident l a0) (ident m b0) h =
      let p_a0 = same_text→eq a0 b0 h in λ i. ident nowhere (p_a0 i)
  same→bare (lookup l a0 a1) (lookup m b0 b1) h =
      let (h0, r0) = both_true (same a0 b0) (same_text a1 b1) h in
      let p_a0 = same→bare a0 b0 h0 in
      let p_a1 = same_text→eq a1 b1 r0 in λ i. lookup nowhere (p_a0 i) (p_a1 i)
  same→bare (subscript l a0 a1) (subscript m b0 b1) h =
      let (h0, r0) = both_true (same a0 b0) (same a1 b1) h in
      let p_a0 = same→bare a0 b0 h0 in
      let p_a1 = same→bare a1 b1 r0 in λ i. subscript nowhere (p_a0 i) (p_a1 i)
  same→bare (specialize l a0 a1) (specialize m b0 b1) h =
      let (h0, r0) = both_true (same a0 b0) (same_all a1 b1) h in
      let p_a0 = same→bare a0 b0 h0 in
      let p_a1 = same_all→bare a1 b1 r0 in λ i. specialize nowhere (p_a0 i) (p_a1 i)
  same→bare (construct l a0 a1) (construct m b0 b1) h =
      let (h0, r0) = both_true (same a0 b0) (same_all a1 b1) h in
      let p_a0 = same→bare a0 b0 h0 in
      let p_a1 = same_all→bare a1 b1 r0 in λ i. construct nowhere (p_a0 i) (p_a1 i)
  same→bare (block l a0 a1) (block m b0 b1) h =
      let (h0, r0) = both_true (same_body a0 b0) (same a1 b1) h in
      let p_a0 = same_body→bare a0 b0 h0 in
      let p_a1 = same→bare a1 b1 r0 in λ i. block nowhere (p_a0 i) (p_a1 i)
  same→bare (map l a0 a1 a2) (map m b0 b1 b2) h =
      let (h0, r0) = both_true (same a0 b0) ((same_text a1 b1) && (same a2 b2)) h in
      let (h1, r1) = both_true (same_text a1 b1) (same a2 b2) r0 in
      let p_a0 = same→bare a0 b0 h0 in
      let p_a1 = same_text→eq a1 b1 h1 in
      let p_a2 = same→bare a2 b2 r1 in λ i. map nowhere (p_a0 i) (p_a1 i) (p_a2 i)
  same→bare (reduce l a0 a1 a2) (reduce m b0 b1 b2) h =
      let (h0, r0) = both_true (same a0 b0) ((same a1 b1) && (same a2 b2)) h in
      let (h1, r1) = both_true (same a1 b1) (same a2 b2) r0 in
      let p_a0 = same→bare a0 b0 h0 in
      let p_a1 = same→bare a1 b1 h1 in
      let p_a2 = same→bare a2 b2 r1 in λ i. reduce nowhere (p_a0 i) (p_a1 i) (p_a2 i)
  same→bare (switch l a0 a1 a2) (switch m b0 b1 b2) h =
      let (h0, r0) = both_true (same a0 b0) (same_all a1 b1) h in
      let p_a0 = same→bare a0 b0 h0 in
      let p_a1 = same_all→bare a1 b1 r0 in λ i. switch nowhere (p_a0 i) (p_a1 i) false
  same→bare (range l a0 a1) (range m b0 b1) h =
      let (h0, r0) = both_true (same a0 b0) (same a1 b1) h in
      let p_a0 = same→bare a0 b0 h0 in
      let p_a1 = same→bare a1 b1 r0 in λ i. range nowhere (p_a0 i) (p_a1 i)
  same→bare (back l a0 a1) (back m b0 b1) h =
      let (h0, r0) = both_true (same a0 b0) (same a1 b1) h in
      let p_a0 = same→bare a0 b0 h0 in
      let p_a1 = same→bare a1 b1 r0 in λ i. back nowhere (p_a0 i) (p_a1 i)
  same→bare (array_literal l a0) (array_literal m b0) h =
      let p_a0 = same_all→bare a0 b0 h in λ i. array_literal nowhere (p_a0 i)
  same→bare _ _ h = cc

  same_all→bare : (a b : Expressions) → same_all a b ≡ true → bare_all a ≡ bare_all b
  same_all→bare no_expressions no_expressions h = refl
  same_all→bare (expression a0 a1) (expression b0 b1) h =
      let (h0, r0) = both_true (same a0 b0) (same_all a1 b1) h in
      let p_a0 = same→bare a0 b0 h0 in
      let p_a1 = same_all→bare a1 b1 r0 in λ i. expression (p_a0 i) (p_a1 i)
  same_all→bare _ _ h = cc

  same_statement→bare :
      (a b : Statement) → same_statement a b ≡ true → bare_statement a ≡ bare_statement b
  same_statement→bare (definition l a0 a1 a2) (definition m b0 b1 b2) h =
      let (h0, r0) = both_true (same_text a0 b0) ((same a1 b1) && (same_access a2 b2)) h in
      let (h1, r1) = both_true (same a1 b1) (same_access a2 b2) r0 in
      let p_a0 = same_text→eq a0 b0 h0 in
      let p_a1 = same→bare a1 b1 h1 in
      let p_a2 = same_access→eq a2 b2 r1 in λ i. definition nowhere (p_a0 i) (p_a1 i) (p_a2 i)
  same_statement→bare (declaration l a0 a1 a2) (declaration m b0 b1 b2) h =
      let (h0, r0) = both_true (same_text a0 b0) ((same a1 b1) && (same_access a2 b2)) h in
      let (h1, r1) = both_true (same a1 b1) (same_access a2 b2) r0 in
      let p_a0 = same_text→eq a0 b0 h0 in
      let p_a1 = same→bare a1 b1 h1 in
      let p_a2 = same_access→eq a2 b2 r1 in λ i. declaration nowhere (p_a0 i) (p_a1 i) (p_a2 i)
  same_statement→bare (constraint l a0 a1) (constraint m b0 b1) h =
      let (h0, r0) = both_true (same a0 b0) (same a1 b1) h in
      let p_a0 = same→bare a0 b0 h0 in
      let p_a1 = same→bare a1 b1 r0 in λ i. constraint nowhere (p_a0 i) (p_a1 i)
  same_statement→bare (void l a0) (void m b0) h =
      let p_a0 = same→bare a0 b0 h in λ i. void nowhere (p_a0 i)
  same_statement→bare (directive l a0 a1) (directive m b0 b1) h =
      let (h0, r0) = both_true (same_text a0 b0) (same_all a1 b1) h in
      let p_a0 = same_text→eq a0 b0 h0 in
      let p_a1 = same_all→bare a1 b1 r0 in λ i. directive nowhere (p_a0 i) (p_a1 i)
  same_statement→bare _ _ h = cc

  same_body→bare : (a b : Statements) → same_body a b ≡ true → bare_body a ≡ bare_body b
  same_body→bare no_statements no_statements h = refl
  same_body→bare (statement a0 a1) (statement b0 b1) h =
      let (h0, r0) = both_true (same_statement a0 b0) (same_body a1 b1) h in
      let p_a0 = same_statement→bare a0 b0 h0 in
      let p_a1 = same_body→bare a1 b1 r0 in λ i. statement (p_a0 i) (p_a1 i)
  same_body→bare _ _ h = cc
