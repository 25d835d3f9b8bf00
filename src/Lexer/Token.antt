-- ===== src/Lexer/Token.antt =====
-- The tokens, and the keywords with theirs.
use Prim.Native.String.{String}
use Prim.Native.Char.{code}
use zirgen.Word.Signed.{ℤ, pos, negsuc}
use zirgen.Prelude.{ℕ, List, [], ◌∷◌, Bool, true, false, ◌==◌, ◌&&◌, if◌then◌else◌}

-- `enum Token`. A token that is a character of the source has the character's code; the source
-- names twenty-two of these, from `<` to `#`.
pub data Token : Type 0 where
  tok_char : ℕ → Token
  tok_component tok_define tok_else tok_for tok_ident tok_if tok_init tok_import tok_literal : Token
  tok_mux tok_order tok_range tok_reduce tok_with tok_function tok_extern tok_test : Token
  tok_test_fails tok_argument tok_string_literal tok_variadic tok_global tok_public tok_eof : Token

-- The tokens of one character, and the numbers of the enumeration.
abbrev pub tok_angle_l : Token
tok_angle_l = tok_char b'<'

abbrev pub tok_angle_r : Token
tok_angle_r = tok_char b'>'

abbrev pub tok_bang : Token
tok_bang = tok_char b'!'

abbrev pub tok_bit_and : Token
tok_bit_and = tok_char b'&'

abbrev pub tok_colon : Token
tok_colon = tok_char b':'

abbrev pub tok_comma : Token
tok_comma = tok_char b','

abbrev pub tok_curly_l : Token
tok_curly_l = tok_char b'{'

abbrev pub tok_curly_r : Token
tok_curly_r = tok_char b'}'

abbrev pub tok_div : Token
tok_div = tok_char b'/'

abbrev pub tok_dot : Token
tok_dot = tok_char b'.'

abbrev pub tok_eq : Token
tok_eq = tok_char b'='

abbrev pub tok_minus : Token
tok_minus = tok_char b'-'

abbrev pub tok_mod : Token
tok_mod = tok_char b'%'

abbrev pub tok_paren_l : Token
tok_paren_l = tok_char b'('

abbrev pub tok_paren_r : Token
tok_paren_r = tok_char b')'

abbrev pub tok_plus : Token
tok_plus = tok_char b'+'

abbrev pub tok_semicolon : Token
tok_semicolon = tok_char b';'

abbrev pub tok_square_l : Token
tok_square_l = tok_char b'['

abbrev pub tok_square_r : Token
tok_square_r = tok_char b']'

abbrev pub tok_times : Token
tok_times = tok_char b'*'

abbrev pub tok_back : Token
tok_back = tok_char b'@'

abbrev pub tok_hash : Token
tok_hash = tok_char b'#'

abbrev pub token_code : Token → ℤ
token_code (tok_char c) = pos c
token_code tok_eof = pos 0
token_code tok_component = negsuc 0
token_code tok_define = negsuc 1
token_code tok_else = negsuc 2
token_code tok_for = negsuc 3
token_code tok_ident = negsuc 4
token_code tok_if = negsuc 5
token_code tok_init = negsuc 6
token_code tok_import = negsuc 7
token_code tok_literal = negsuc 8
token_code tok_mux = negsuc 9
token_code tok_order = negsuc 10
token_code tok_range = negsuc 11
token_code tok_reduce = negsuc 12
token_code tok_with = negsuc 13
token_code tok_function = negsuc 14
token_code tok_extern = negsuc 15
token_code tok_test = negsuc 16
token_code tok_test_fails = negsuc 17
token_code tok_argument = negsuc 18
token_code tok_string_literal = negsuc 19
token_code tok_variadic = negsuc 20
token_code tok_global = negsuc 21
token_code tok_public = negsuc 22

infix 50 ◌==ℤ◌
abbrev pub ◌==ℤ◌ : ℤ → ℤ → Bool
pos a ==ℤ pos b = a == b
negsuc a ==ℤ negsuc b = a == b
_ ==ℤ _ = false

-- `token == other`
abbrev pub is : Token → Token → Bool
is token other = token_code token ==ℤ token_code other

-- The code points of a text.
abbrev pub codes : String → List ℕ
codes String.[] = []
codes (String.◌∷◌ c s) = code c ∷ codes s

unfoldable pub same_text : List ℕ → List ℕ → Bool
same_text [] [] = true
same_text [] (c ∷ s) = false
same_text (c ∷ s) [] = false
same_text (c ∷ s) (d ∷ t) = (c == d) && same_text s t

pub record Keyword : Type 0 where
  pub text : List ℕ
  pub token : Token

abbrev keyword : String → Token → Keyword
keyword s t = record { text = codes s; token = t }

abbrev pub keywords : List Keyword
keywords =
    keyword "argument" tok_argument
    ∷ keyword "component" tok_component
    ∷ keyword "function" tok_function
    ∷ keyword "else" tok_else
    ∷ keyword "extern" tok_extern
    ∷ keyword "for" tok_for
    ∷ keyword "if" tok_if
    ∷ keyword "import" tok_import
    ∷ keyword "init" tok_init
    ∷ keyword "order" tok_order
    ∷ keyword "reduce" tok_reduce
    ∷ keyword "test" tok_test
    ∷ keyword "test_fails" tok_test_fails
    ∷ keyword "with" tok_with
    ∷ keyword "global" tok_global
    ∷ keyword "public" tok_public
    ∷ []

-- `keywords.find(identifier)`, or `tok_ident` at the end of the table.
find_keyword : List Keyword → List ℕ → Token
unfolding same_text
find_keyword [] identifier = tok_ident
find_keyword (k ∷ rest) identifier =
    let found = find_keyword rest identifier in
    if same_text k.text identifier then k.token else found

unfoldable pub identifier_token : List ℕ → Token
unfolding find_keyword
identifier_token identifier = find_keyword keywords identifier
