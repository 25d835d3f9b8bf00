-- ===== src/Parser/Descent.antt =====
-- The recursive descent over expressions and blocks. Every call and every round of a loop costs a
-- unit of fuel, since what a call leaves of the input is not a structural part of it.
use Prim.Native.String.{String}
use zirgen.Prelude.{ℕ, zero, suc, Bool, false, not, ◌||◌, ◌&&◌, if◌then◌else◌, Option, none, some}
use zirgen.Word.Signed.{ℤ, pos, ltb_ℤ}
use zirgen.Lexer.Token.{
  Token, is, tok_angle_l, tok_angle_r, tok_bang, tok_colon, tok_comma, tok_curly_l, tok_curly_r,
  tok_eq, tok_minus, tok_paren_l, tok_paren_r, tok_semicolon, tok_square_l, tok_square_r, tok_back,
  tok_define, tok_dot, tok_else, tok_for, tok_ident, tok_if, tok_init, tok_literal, tok_mux,
  tok_reduce, tok_with, tok_string_literal, tok_global, tok_public,
}
use zirgen.Lexer.Reader.{Location}
use zirgen.Ast.{
  Access, access_default, access_global, access_public, Expression, Expressions, Statement,
  Statements, null, subscript, specialize, construct, map, reduce, switch, array_literal,
  no_expressions, expression, definition, declaration, constraint, void, directive, no_statements,
  push_expression, push_statement,
}
use zirgen.Parser.Source as Source
use zirgen.Parser.Source.{TokenSource, Step, pure, out_of_fuel, when, ◌>>=◌, ◌>>◌}
use zirgen.Parser.Precedence.{get_precedence, next_precedence, build_binary_op}
use zirgen.Parser.Expression as Parts
use zirgen.Parser.Expression.{is_null, ident_name, starts_primary, infix_only}

-- What a statement leaves: the access that is still upcoming, the body and the last expression.
pub record After : Type 0 where
  pub access : Access
  pub body : Statements
  pub last : Expression

module _ {S : Type 0} (source : TokenSource S) where
  abbrev peek : Step S Token
  peek = Source.peek source

  abbrev take : Step S Token
  take = Source.take source

  abbrev take_if : Token → Step S Bool
  take_if = Source.take_if source

  abbrev last_location : Step S Location
  last_location = Source.last_location source

  abbrev error : String → Step S (Unit {0})
  error = Source.error source

  abbrev fail : {A : Type 0} → String → A → Step S A
  fail = Source.fail source

  abbrev expect_if : Token → String → Step S Expression → Step S Expression
  expect_if = Parts.expect_if source

  abbrev expect : Token → String → Step S Expression → Step S Expression
  expect = Parts.expect source

  -- `if (lexer.takeToken() != t) { error(text); return nullptr; }` in a block.
  abbrev expect_in_block : Token → String → Step S (Option After) → Step S (Option After)
  expect_in_block t text rest = take >>= λ token. if is token t then rest else fail text none

  abbrev next_statement : Statement → Statements → Step S (Option After)
  next_statement s body =
      pure (some (record { access = access_default; body = push_statement body s; last = null }))

  -- The keyword before a statement.
  abbrev take_access : Token → Step S Access
  take_access token =
      if is token tok_global
      then take >> pure access_global
      else (if is token tok_public then take >> pure access_public else pure access_default)

  unfoldable mutual
    unfolding ltb_ℤ get_precedence build_binary_op starts_primary infix_only Parts.parse_literal
        Parts.parse_identifier Parts.parse_lookup

    -- `parseExpression(precedence)`, from its loop on.
    pub parse_expression : ℕ → ℤ → Expression → Step S Expression
    parse_expression zero precedence left = out_of_fuel
    parse_expression (suc f) precedence left = do
      token ← peek
      let missing = when (is_null left) (error "missing left operand for binary operator")
      let doubled = when (not (is_null left)) (error "unexpected expression")
      let primary = do doubled; e ← parse_primary f null; parse_expression f precedence e
      let binary = do e ← parse_binary_op f left precedence; parse_expression f precedence e
      let negate = do e ← parse_negate f; parse_expression f precedence e
      if is token tok_curly_l && not (is_null left)
          then pure left
          else (if starts_primary token
              then primary
              else (if infix_only token
                  then missing >> binary
                  else (if is token tok_minus
                      then (if is_null left then negate else binary)
                      else pure left)))

    pub match_expression : ℕ → String → Step S Expression
    match_expression zero message = out_of_fuel
    match_expression (suc f) message = do
      e ← parse_expression f (pos 0) null
      when (is_null e) (error message)
      pure e

    -- `parsePrimaryExpression`, from its loop on.
    pub parse_primary : ℕ → Expression → Step S Expression
    parse_primary zero left = out_of_fuel
    parse_primary (suc f) left = do
      token ← peek
      let again : Step S Expression → Step S Expression = λ p. p >>= parse_primary f
      let first : Step S Expression → Step S Expression =
          λ p. if is_null left then again p else pure left
      let onto : String → Step S Expression → Step S Expression =
          λ text p. when (is_null left) (error text) >> again p
      if is token tok_literal || is token tok_string_literal
          then first (Parts.parse_literal source)
          else (if is token tok_ident
              then first (Parts.parse_identifier source)
              else (if is token tok_for
                  then first (parse_map f)
                  else (if is token tok_reduce
                      then first (parse_reduce f)
                      else (if is token tok_if
                          then first (parse_conditional f)
                          else (if is token tok_curly_l
                              then (if is_null left then parse_block f else pure left)
                              else (if is token tok_minus
                                  then first (parse_negate f)
                                  else (if is token tok_square_l
                                      then again (
                                          if is_null left
                                          then parse_array_literal f
                                          else parse_subscript f left)
                                      else (if is token tok_angle_l
                                          then onto "missing base expression for specialization"
                                              (parse_specialize f left)
                                          else (if is token tok_paren_l
                                              then again (
                                                  if is_null left
                                                  then parse_parenthesized f
                                                  else parse_construct f left)
                                              else (if is token tok_mux
                                                  then onto
                                                      "missing base expression for switch operation"
                                                      (parse_switch f left)
                                                  else (if is token tok_dot
                                                      then onto
                                                          "missing base expression for member lookup"
                                                          (Parts.parse_lookup source left)
                                                      else (if is token tok_back
                                                          then onto
                                                            "missing base expression for back operation"
                                                            (parse_back f left)
                                                          else (when (is_null left) (
                                                            error
                                                            "expected a primary expression here")
                                                            >> pure left)))))))))))))

    pub parse_map : ℕ → Step S Expression
    parse_map zero = out_of_fuel
    parse_map (suc f) = expect tok_for "A map construct must start with the keyword 'for'" do
      loc ← last_location
      expect tok_ident "Expected an identifier after 'for'" do
        induction_var ← Source.identifier source
        expect tok_colon "Expected ':' after induction variable in map construct" do
          array ← match_expression f "Expected array expression"
          function ← parse_block f
          pure (map loc array induction_var function)

    pub parse_reduce : ℕ → Step S Expression
    parse_reduce zero = out_of_fuel
    parse_reduce (suc f) =
        expect tok_reduce "A reduce construct must start with the keyword 'reduce'" do
          loc ← last_location
          array ← match_expression f "Expected array expression"
          expect tok_init "Expected initial value in reduce construct" do
            init ← match_expression f "Expected init expression"
            expect tok_with "Expected a reducer component in reduce construct" do
              reducer ← match_expression f "Expected reducer expression"
              pure (reduce loc array init reducer)

    pub parse_conditional : ℕ → Step S Expression
    parse_conditional zero = out_of_fuel
    parse_conditional (suc f) =
        expect_if tok_if "A conditional expression must start with the 'if' keyword" do
          loc ← last_location
          expect_if tok_paren_l "Expected parentheses around condition, missing '('" do
            condition ← match_expression f "Expected a condition expression"
            expect_if tok_paren_r "Missing ')' after condition" do
              yes_case ← parse_block f
              has_else ← take_if tok_else
              let selector = expression condition no_expressions
              let only = expression yes_case no_expressions
              let no_else = pure (switch loc (array_literal loc selector) only false)
              let with_else = do
                no_case ← parse_block f
                pure (
                    switch loc
                      (array_literal loc
                        (push_expression selector (Parts.one_minus source loc condition)))
                      (push_expression only no_case) false)
              if has_else then with_else else no_else

    pub parse_parenthesized : ℕ → Step S Expression
    parse_parenthesized zero = out_of_fuel
    parse_parenthesized (suc f) =
        expect_if tok_paren_l "Expected a '(' at the start of a parenthesized expression" do
          e ← parse_expression f (pos 0) null
          expect_if tok_paren_r "Expected a ')' at the end of a parenthesized expression" (pure e)

    pub parse_array_literal : ℕ → Step S Expression
    parse_array_literal zero = out_of_fuel
    parse_array_literal (suc f) =
        expect_if tok_square_l "Expected a '[' at the start of an array literal" do
          loc ← last_location
          elements ← parse_list f tok_square_r
          expect_if tok_square_r "Expected a ']' at the end of an array literal"
              (pure (array_literal loc elements))

    -- `if (lexer.peekToken() != close) elements = parseExpressions();`
    pub parse_list : ℕ → Token → Step S Expressions
    parse_list zero close = out_of_fuel
    parse_list (suc f) close = do
      token ← peek
      if is token close then pure no_expressions else parse_expressions f no_expressions

    pub parse_back : ℕ → Expression → Step S Expression
    parse_back zero base = out_of_fuel
    parse_back (suc f) base =
        expect tok_back "Expected a '@' after base component in back expression" do
          loc ← last_location
          token ← peek
          let distance =
              if is token tok_paren_l
              then parse_parenthesized f
              else (if is token tok_literal
                  then Parts.parse_literal source
                  else (if is token tok_ident then Parts.parse_identifier source else pure null))
          rhs ← distance
          Parts.finish_back source loc base rhs

    pub parse_subscript : ℕ → Expression → Step S Expression
    parse_subscript zero array = out_of_fuel
    parse_subscript (suc f) array =
        expect_if tok_square_l "Expected a '[' after array component in subscript expression" do
          loc ← last_location
          element ← match_expression f "Expected index expression"
          expect_if tok_square_r "Expected a ']' after element of subscript expression"
              (pure (subscript loc array element))

    pub parse_specialize : ℕ → Expression → Step S Expression
    parse_specialize zero generic = out_of_fuel
    parse_specialize (suc f) generic =
        expect_if tok_angle_l "Expected a '<' after the type in a \"specialize\" expression" do
          loc ← last_location
          args ← parse_expressions f no_expressions
          expect_if tok_angle_r "Expected a '>' after type arguments in a \"specialize\" expression"
              (pure (specialize loc generic args))

    pub parse_construct : ℕ → Expression → Step S Expression
    parse_construct zero component = out_of_fuel
    parse_construct (suc f) component =
        expect_if tok_paren_l "Expected a '(' after component type in constructor expression" do
          loc ← last_location
          args ← parse_list f tok_paren_r
          expect_if tok_paren_r "Expected a ')' after arguments in constructor expression"
              (pure (construct loc component args))

    pub parse_switch : ℕ → Expression → Step S Expression
    parse_switch zero selector = out_of_fuel
    parse_switch (suc f) selector = expect_if tok_mux "Expected '->' after selector in mux" do
      loc ← last_location
      is_major ← take_if tok_bang
      expect_if tok_paren_l "A mux's arms should be enclosed in parentheses, missing '('" do
        token ← peek
        let arms = do
          cases ← parse_expressions f no_expressions
          expect_if tok_paren_r "Expected ')' after all of the mux's arms"
              (pure (switch loc selector cases is_major))
        if is token tok_paren_r then fail "A mux must have at least one arm" null else arms

    -- `parseBinaryOp(lhs, precedence)`, a round of its loop.
    pub parse_binary_op : ℕ → Expression → ℤ → Step S Expression
    parse_binary_op zero lhs precedence = out_of_fuel
    parse_binary_op (suc f) lhs precedence = do
      op_token ← peek
      loc ← last_location
      let op_precedence = get_precedence op_token
      let resolve = do
        take
        first ← parse_primary f null
        next_op_token ← peek
        let longer = parse_binary_op f first (next_precedence op_precedence)
        rhs ← if ltb_ℤ op_precedence (get_precedence next_op_token) then longer else pure first
        e ← build_binary_op source op_token lhs rhs loc
        parse_binary_op f e precedence
      if ltb_ℤ op_precedence precedence then pure lhs else resolve

    -- `parseExpressions`, a round of its loop.
    pub parse_expressions : ℕ → Expressions → Step S Expressions
    parse_expressions zero found = out_of_fuel
    parse_expressions (suc f) found = do
      e ← parse_expression f (pos 0) null
      let more = do
        again ← take_if tok_comma
        let rest = parse_expressions f (push_expression found e)
        if again then rest else pure (push_expression found e)
      if is_null e then fail "Expected an expression" found else more

    pub parse_negate : ℕ → Step S Expression
    parse_negate zero = out_of_fuel
    parse_negate (suc f) =
        expect_if tok_minus "expected minus sign at start of negation expression"
          do loc ← last_location; val ← parse_primary f null; Parts.finish_negate source loc val

    pub parse_block : ℕ → Step S Expression
    parse_block zero = out_of_fuel
    parse_block (suc f) = expect tok_curly_l "A block must start with '{'" do
      block_loc ← last_location
      found ← parse_statements f no_statements null
      Parts.finish_block source block_loc found

    -- `while (!done)` of `parseBlock`; `none` is a `return nullptr` in it.
    pub parse_statements : ℕ → Statements → Expression → Step S (Option (Statements × Expression))
    parse_statements zero body last = out_of_fuel
    parse_statements (suc f) body last = do
      token ← peek
      loc ← last_location
      let statement = do
        access ← take_access token
        e ← match_expression f "expected expression at beginning of statement"
        found ← parse_statement f loc access body e
        close_statement f found
      if is token tok_curly_r then pure (some (body, last)) else statement

    -- `switch (upcomingAccess)`
    pub close_statement : ℕ → Option After → Step S (Option (Statements × Expression))
    close_statement zero found = out_of_fuel
    close_statement (suc f) none = pure none
    close_statement (suc f) (some r) = elim r.access [
      | access_global ↦ fail "Expected declaration or definition after `global'" none
      | access_public ↦ fail "Expected declaration or definition after `public'" none
      | access_default ↦ parse_statements f r.body r.last
    ]

    -- What follows the first expression of a statement.
    pub parse_statement : ℕ → Location → Access → Statements → Expression → Step S (Option After)
    parse_statement zero loc access body last = out_of_fuel
    parse_statement (suc f) loc access body last = do
      let void_case =
          take
          >> pure (
              some (record {
                access = access;
                body = push_statement body (void loc last);
                last = null;
              }))
      let value_case = pure (some (record { access = access; body = body; last = last }))
      t1 ← peek
      if is t1 tok_semicolon then void_case else do
        t2 ← peek
        if is t2 tok_bang then parse_directive f access body else do
          t3 ← peek
          if is t3 tok_define then parse_definition f access body last else do
            t4 ← peek
            if is t4 tok_eq then parse_constraint f access body last else do
              t5 ← peek
              if is t5 tok_colon then parse_declaration f access body last else do
                t6 ← peek
                if is t6 tok_curly_r then value_case else fail "invalid statement" none

    pub parse_directive : ℕ → Access → Statements → Step S (Option After)
    parse_directive zero access body = out_of_fuel
    parse_directive (suc f) access body = do
      loc ← last_location
      name ← Source.identifier source
      take
      opened ← take_if tok_paren_l
      when (not opened) (error "expected '(' after '!' in compiler directive")
      args ← parse_list f tok_paren_r
      take
      expect_in_block tok_semicolon "expected semicolon after compiler directive" (
          pure (
            some (record {
              access = access;
              body = push_statement body (directive loc name args);
              last = null;
            })))

    pub parse_definition : ℕ → Access → Statements → Expression → Step S (Option After)
    parse_definition zero access body last = out_of_fuel
    parse_definition (suc f) access body last = elim (ident_name last) [
      | none ↦ fail "expected an identifier on left side of member definition" none
      | some name ↦ do
        take
        loc ← last_location
        value ← match_expression f "expected an expression on right side of member definition"
        expect_in_block tok_semicolon "expected semicolon after member definition"
            (next_statement (definition loc name value access) body)
    ]

    pub parse_constraint : ℕ → Access → Statements → Expression → Step S (Option After)
    parse_constraint zero access body last = out_of_fuel
    parse_constraint (suc f) access body last = do
      take
      loc ← last_location
      rhs ← match_expression f "expected an expression on right side of constraint"
      expect_in_block tok_semicolon "expected semicolon after constraint statement" (
          pure (
            some (record {
              access = access;
              body = push_statement body (constraint loc last rhs);
              last = null;
            })))

    pub parse_declaration : ℕ → Access → Statements → Expression → Step S (Option After)
    parse_declaration zero access body last = out_of_fuel
    parse_declaration (suc f) access body last = elim (ident_name last) [
      | none ↦ fail "expected an identifier on left side of member declaration" none
      | some name ↦ do
        take
        loc ← last_location
        type ← match_expression f "expected type expression"
        expect_in_block tok_semicolon "expected semicolon after member declaration"
            (next_statement (declaration loc name type access) body)
    ]
