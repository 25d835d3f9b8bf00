-- ===== src/Parser/Declaration.antt =====
-- Components, imports, tests and the module.
pub mod Laws
use Prim.Native.String.{String}
use zirgen.Prelude.{
  ℕ, zero, suc, List, [], ◌∷◌, ◌++◌, Bool, true, false, not, ◌||◌, ◌&&◌, if◌then◌else◌, Option,
  none, some,
}
use zirgen.Lexer.Token.{
  Token, is, codes, tok_angle_l, tok_angle_r, tok_argument, tok_colon, tok_comma, tok_component,
  tok_eof, tok_extern, tok_function, tok_hash, tok_ident, tok_import, tok_paren_l, tok_paren_r,
  tok_semicolon, tok_square_l, tok_square_r, tok_test, tok_test_fails, tok_variadic,
}
use zirgen.Lexer.Reader.{Location}
use zirgen.Lexer.State.{unexpected_name}
use zirgen.Ast.{
  Name, Expression, Attribute, Parameter, Kind, Component, Module, ident, object, function, extern,
  argument,
}
use zirgen.Ast.Print.{emit_uint}
use zirgen.Parser.Source as Source
use zirgen.Parser.Source.{TokenSource, Step, pure, out_of_fuel, when, ◌>>=◌, ◌>>◌}
use zirgen.Parser.Expression.{is_null}
use zirgen.Parser.Descent.{match_expression, parse_block}

module _ {S : Type 0} (source : TokenSource S) where
  abbrev peek : Step S Token
  peek = Source.peek source

  abbrev take : Step S Token
  take = Source.take source

  abbrev take_if : Token → Step S Bool
  take_if = Source.take_if source

  abbrev last_location : Step S Location
  last_location = Source.last_location source

  abbrev fail : {A : Type 0} → String → A → Step S A
  fail = Source.fail source

  -- `error("Expected an identifier name, got ...")`
  abbrev fail_name : Step S (Option Component)
  fail_name = do
    name ← Source.identifier source
    Source.report source (unexpected_name name)
    pure none

  -- `while (token == tok_comma && errors.empty())`
  abbrev goes_on : Token → Step S Bool
  goes_on token = do failed ← Source.failed source; pure (is token tok_comma && not failed)

  -- What follows the loop over a list: the token behind it should close it.
  abbrev closed : {A : Type 0} → Token → String → Token → List A → Step S (List A)
  closed close text token found = if is token close then pure found else fail text []

  -- The loop over the attributes, with the last token taken. At a first token that is no identifier
  -- the source reads an uninitialised variable, for which `token` stands.
  unfoldable pub attributes : ℕ → Token → List Attribute → Step S (Token × List Attribute)
  attributes zero token found = out_of_fuel
  attributes (suc f) token found = do
    is_ident ← take_if tok_ident
    let one = do
      loc ← last_location
      name ← Source.identifier source
      next ← take
      more ← goes_on next
      let all = found ++ record { loc = loc; name = name } ∷ []
      let rest = attributes f next all
      if more then rest else pure (next, all)
    if is_ident then one else pure (token, found)

  -- As in the source, it is a `)` that ends an empty list.
  unfoldable pub parse_optional_attribute_list : ℕ → Step S (List Attribute)
  unfolding attributes
  parse_optional_attribute_list f = do
    token ← peek
    let list = do
      take
      opened ← take_if tok_square_l
      let inside = do
        empty ← take_if tok_paren_r
        let some_attributes = do
          (last, found) ← attributes f tok_eof []
          closed tok_square_r "Expected ']' at the end of an attribute list" last found
        if empty then pure [] else some_attributes
      if opened then inside else fail "Expected '#[' at the beginning of an attribute list" []
    if is token tok_hash then list else pure []

  unfoldable pub parse_parameter : ℕ → Step S (Option Parameter)
  unfolding match_expression
  parse_parameter f = do
    token ← take
    let named = do
      name ← Source.identifier source
      loc ← last_location
      colon ← take
      let typed = do
        type ← match_expression source f "Expected type annotation expression after parameter name"
        let whole = do
          next ← peek
          let is_variadic = is next tok_variadic
          when is_variadic (take >> pure tt)
          pure (some (record { loc = loc; name = name; type = type; is_variadic = is_variadic }))
        if is_null type then pure none else whole
      if is colon tok_colon
          then typed
          else fail "Expected type annotation ': type' after parameter name" none
    if is token tok_ident then named else fail "A parameter must start with its name" none

  -- The loop over parameters, with the token behind the last.
  unfoldable pub parameters : ℕ → List Parameter → Step S (Token × List Parameter)
  unfolding parse_parameter
  parameters zero found = out_of_fuel
  parameters (suc f) found = do
    param ← parse_parameter f
    token ← take
    more ← goes_on token
    elim param [
      | none ↦ pure (token, found)
      | some p ↦
          let all = found ++ p ∷ [] in
          let rest = parameters f all in if more then rest else pure (token, all)
    ]

  unfoldable pub parse_optional_type_parameters : ℕ → Step S (List Parameter)
  unfolding parameters
  parse_optional_type_parameters f = do
    opened ← take_if tok_angle_l
    let list = do
      (token, found) ← parameters f []
      closed tok_angle_r "Missing final '>' at the end of a type parameter list" token found
    if opened then list else pure []

  unfoldable pub parse_parameters : ℕ → Step S (List Parameter)
  unfolding parameters
  parse_parameters f = do
    opened ← take_if tok_paren_l
    let list = do
      empty ← take_if tok_paren_r
      let some_parameters = do
        (token, found) ← parameters f []
        closed tok_paren_r "Expected ')' at the end of a parameter list" token found
      if empty then pure [] else some_parameters
    if opened then list else fail "Expected '(' at the beginning of a parameter list" []

  -- The end of an extern: its return type, or none.
  abbrev return_type : ℕ → Location → (Expression → Component) → Step S (Option Component)
  return_type f loc made = do
    token ← take
    let typed = do
      type ← match_expression source f "Expecting return type"
      ended ← take_if tok_semicolon
      if ended
          then pure (some (made type))
          else fail "Expecting extern definition to be followed by a semicolon" none
    if is token tok_semicolon
        then pure (some (made (ident loc (codes "Component"))))
        else (if is token tok_colon
            then typed
            else fail "Expecting extern definition to end with either ';' or ': type;'" none)

  unfoldable pub parse_extern : ℕ → Step S (Option Component)
  unfolding match_expression parse_parameters
  parse_extern f = do
    loc ← last_location
    is_ident ← take_if tok_ident
    let named = do
      name ← Source.identifier source
      params ← parse_parameters f
      return_type f loc λ body. record {
        loc = loc;
        kind = extern;
        name = name;
        attributes = [];
        type_params = [];
        params = params;
        body = body;
      }
    if is_ident then named else fail_name

  -- What follows the keyword of a component.
  abbrev component_of : ℕ → List Attribute → Kind → Step S (Option Component)
  component_of f attrs kind = do
    loc ← last_location
    token ← take
    let named = do
      name ← Source.identifier source
      type_params ← parse_optional_type_parameters f
      params ← parse_parameters f
      body ← parse_block source f
      pure (
          some (record {
            loc = loc;
            kind = kind;
            name = name;
            attributes = attrs;
            type_params = type_params;
            params = params;
            body = body;
          }))
    if is token tok_ident then named else fail_name

  abbrev not_a_component : List Attribute → Step S (Option Component)
  not_a_component [] = fail "A component declaration must start with the `component` keyword" none
  not_a_component (a ∷ attrs) = fail "Attributes are only allowed on component declarations" none

  unfoldable pub parse_component : ℕ → Step S (Option Component)
  unfolding parse_optional_attribute_list parse_optional_type_parameters parse_parameters
      parse_block parse_extern
  parse_component f = do
    attrs ← parse_optional_attribute_list f
    token ← take
    if is token tok_argument
        then component_of f attrs argument
        else (if is token tok_component
            then component_of f attrs object
            else (if is token tok_function
                then component_of f attrs function
                else (if is token tok_extern then parse_extern f else not_a_component attrs)))

  abbrev test_prefix : Bool → Name
  test_prefix true = codes "test$fail$"
  test_prefix false = codes "test$succ$"

  unfoldable pub parse_test : ℕ → Step S (Option Component)
  unfolding parse_block emit_uint
  parse_test f = do
    loc ← last_location
    token ← take
    is_ident ← take_if tok_ident
    name ←
        if is_ident
        then Source.identifier source
        else (Source.next_test source >>= λ n. pure (emit_uint n))
    body ← parse_block source f
    pure (
        some (record {
          loc = loc;
          kind = object;
          name = test_prefix (is token tok_test_fails) ++ name;
          attributes = [];
          type_params = [];
          params = [];
          body = body;
        }))

  unfoldable pub parse_import : Step S (Unit {0})
  parse_import = do
    take
    is_ident ← take_if tok_ident
    let named = do
      name ← Source.identifier source
      ended ← take_if tok_semicolon
      if ended
          then Source.do_import source name
          else fail "Expected semicolon after import statement" tt
    if is_ident then named else fail "Expected identifier in import statement" tt

  abbrev starts_component : Token → Bool
  starts_component t =
      is t tok_hash
      || (is t tok_argument || (is t tok_component || (is t tok_function || is t tok_extern)))

  -- `while (!done)` of `parseModule`.
  unfoldable pub components : ℕ → List (Option Component) → Step S (List (Option Component))
  unfolding parse_component parse_import parse_test
  components zero found = out_of_fuel
  components (suc f) found = do
    token ← peek
    let one = do c ← parse_component f; components f (found ++ c ∷ [])
    let import = do parse_import; components f found
    let test = do
      c ← parse_test f
      main ← Source.in_main source
      components f (if main then found ++ c ∷ [] else found)
    if starts_component token
        then one
        else (if is token tok_import
            then import
            else (if is token tok_test || is token tok_test_fails then test else pure found))

  -- What follows the loop of `parseModule`. `none` in the result is the null pointer that stands for a
  -- file with errors.
  abbrev pub finish_module : List (Option Component) → Step S (Option Module)
  finish_module found = do
    last ← take
    when (not (is last tok_eof)) (Source.error source "unexpected input at end of file")
    loc ← last_location
    failed ← Source.failed source
    pure (if failed then none else some (record { loc = loc; body = found }))

  unfoldable pub parse_module : ℕ → Step S (Option Module)
  unfolding components
  parse_module f = components f [] >>= finish_module
