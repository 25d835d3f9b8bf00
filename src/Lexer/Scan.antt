-- ===== src/Lexer/Scan.antt =====
-- The parts of `takeToken` that read the text of one token, its first character already taken.
pub mod Laws
use zirgen.Prelude.{
  ℕ, zero, suc, ◌+◌, ◌-◌, ◌*◌, ◌^◌, List, [], ◌∷◌, ◌++◌, Option, none, some, Bool, true, false, not,
  ◌==◌, ltb, leb, ◌&&◌, ◌||◌, if◌then◌else◌,
}
use zirgen.Lexer.Reader.{take, unget, peek}
use zirgen.Lexer.State.{Lexer, Message, peek_char, take_next_char, unget_char, error}
use zirgen.Lexer.Token.{
  Token, identifier_token, tok_char, tok_define, tok_mux, tok_range, tok_variadic, tok_literal,
}
use zirgen.Lexer.Skip.{rounds}

-- `isalpha`, `isdigit`, `isalnum` and `isxdigit` of the C library.
abbrev within : ℕ → ℕ → ℕ → Bool
within low high c = leb low c && leb c high

unfoldable pub is_alpha : ℕ → Bool
is_alpha c = within b'a' b'z' c || within b'A' b'Z' c

unfoldable pub is_digit : ℕ → Bool
is_digit c = within b'0' b'9' c

unfoldable pub is_xdigit : ℕ → Bool
unfolding is_digit
is_xdigit c = is_digit c || (within b'a' b'f' c || within b'A' b'F' c)

-- `isalpha(c) || c == '_'` and `isalnum(c) || c == '_'`
unfoldable pub starts_word : ℕ → Bool
unfolding is_alpha
starts_word c = is_alpha c || c == b'_'

unfoldable pub in_word : ℕ → Bool
unfolding is_alpha is_digit
in_word c = is_alpha c || (is_digit c || c == b'_')

-- `identifier.push_back(c)`
abbrev pub push : ℕ → Lexer → Lexer
push c l = record l { identifier = l.identifier ++ c ∷ [] }

unfoldable pub word : ℕ → ℕ → Lexer → Lexer
unfolding take unget in_word
word zero c l = l
word (suc fuel) c l =
    let (d, next) = take_next_char (push c l) in
    let rest = word fuel d next in if in_word d then rest else unget_char next

unfoldable pub take_word : ℕ → Lexer → Token × Lexer
unfolding word identifier_token
take_word c l =
    let scanned = word (rounds l.source) c (record l { identifier = [] }) in
    (identifier_token scanned.identifier, scanned)

unfoldable pub is_literal_digit : ℕ → ℕ → Bool
unfolding is_digit is_xdigit
is_literal_digit base c =
    if base == 2 then c == b'0' || c == b'1' else (if base == 10 then is_digit c else is_xdigit c)

unfoldable pub digits : ℕ → ℕ → ℕ → List ℕ → Lexer → List ℕ × Lexer
unfolding take is_literal_digit
digits zero base c digit_string l = (digit_string, l)
digits (suc fuel) base c digit_string l =
    let (d, next) = take_next_char l in
    let rest = digits fuel base d (digit_string ++ c ∷ []) next in
    if is_literal_digit base c then rest else (digit_string, l)

unfoldable pub digit_value : ℕ → ℕ
digit_value c =
    if leb c b'9' then c - b'0' else (if leb c b'F' then c - b'A' + 10 else c - b'a' + 10)

unfoldable pub number : ℕ → ℕ → List ℕ → ℕ
unfolding digit_value
number base n [] = n
number base n (c ∷ rest) = number base (n * base + digit_value c) rest

-- `std::stol` of digits of the base: a `long` has 64 bits, and what it cannot hold is thrown out.
unfoldable pub stol : ℕ → List ℕ → Option ℕ
unfolding number
stol base digit_string =
    let n = number base 0 digit_string in if ltb n (2 ^ 63) then some n else none

abbrev set_literal : Option ℕ → Lexer → Lexer
set_literal (some n) l = record l { literal = n }
set_literal none l = error Message.out_of_range l

-- What follows the loop over the digits.
unfoldable pub finish_literal : ℕ → List ℕ → Lexer → Token × Lexer
unfolding stol error unget
finish_literal base [] l =
    let failed = error Message.no_digits (unget_char l) in
    (tok_literal, set_literal (stol base (b'0' ∷ [])) failed)
finish_literal base (c ∷ rest) l = (tok_literal, set_literal (stol base (c ∷ rest)) (unget_char l))

abbrev scan_literal : ℕ → ℕ → Lexer → Token × Lexer
scan_literal base c l =
    let (digit_string, next) = digits (rounds l.source) base c [] l in
    finish_literal base digit_string next

unfoldable pub take_literal : ℕ → Lexer → Token × Lexer
unfolding take peek digits finish_literal
take_literal c l =
    let (d, first) = take_next_char (take_next_char l).1 in
    if c == b'0' && peek_char l == b'x'
    then scan_literal 16 d first
    else (if c == b'0' && peek_char l == b'b' then scan_literal 2 d first else scan_literal 10 c l)

-- The loop over the characters of a string, with the character it stops at. It has no test for the
-- end of the buffer, so it may not end: `none` when the fuel is used up.
unfoldable pub string_text : ℕ → ℕ → Lexer → Option (ℕ × Lexer)
unfolding take
string_text zero c l = none
string_text (suc fuel) c l =
    let (d, next) = take_next_char (push c l) in
    let rest = string_text fuel d next in
    if not (c == b'"') && not (c == b'\n') then rest else some (c, l)

unfoldable pub operator : ℕ → Lexer → Token × Lexer
unfolding take unget
operator c l =
    let (d, second) = take_next_char l in
    let (e, third) = take_next_char second in
    if c == b':' && d == b'='
    then (tok_define, second)
    else (if c == b'-' && d == b'>'
        then (tok_mux, second)
        else (if c == b'.' && d == b'.'
            then (if e == b'.' then (tok_variadic, third) else (tok_range, unget_char third))
            else (if c == b':' || (c == b'-' || c == b'.')
                then (tok_char c, unget_char second)
                else (tok_char c, l))))
