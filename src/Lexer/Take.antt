-- ===== src/Lexer/Take.antt =====
-- `takeToken`, `peekToken` and `takeTokenIf`.
use zirgen.Prelude.{
  ℕ, suc, List, [], ◌∷◌, Option, none, some, Bool, true, false, ◌==◌, if◌then◌else◌,
}
use mathlib.Core.Option
use zirgen.Lexer.Reader.{Reader, take, location}
use zirgen.Lexer.State.{Lexer, Message, take_next_char, error}
use zirgen.Lexer.Token.{Token, tok_eof, tok_string_literal}
use zirgen.Lexer.Skip.{rounds, skip_to_next_token}
use zirgen.Lexer.Scan.{starts_word, is_digit, take_word, take_literal, string_text, operator}

-- `while (c == 0)`, a round for each reader of the stack; `none` is the end of the main file.
unfoldable pub leave_imports : List Reader → ℕ → Lexer → Option ℕ × Lexer
unfolding take skip_to_next_token
leave_imports [] c l = if c == 0 then (none, l) else (some c, l)
leave_imports (r ∷ stack) c l =
    let (d, next) = take_next_char (skip_to_next_token (record l { source = r; stack = stack })) in
    let rest = leave_imports stack d next in if c == 0 then rest else (some c, l)

abbrev finish_string : Option (ℕ × Lexer) → Option (Token × Lexer)
finish_string none = none
finish_string (some (c, l)) =
    some (tok_string_literal, if c == b'\n' then error Message.unclosed_string l else l)

-- From `this->lastLocation = source.location()`.
unfoldable pub token_from : ℕ → Lexer → Option (Token × Lexer)
unfolding take starts_word is_digit take_word take_literal string_text operator error
token_from c l =
    let located = record l { last_location = location l.source } in
    let (d, text) = take_next_char (record located { identifier = [] }) in
    if starts_word c
    then some (take_word c located)
    else (if is_digit c
        then some (take_literal c located)
        else (if c == b'"'
            then finish_string (string_text (suc (rounds text.source)) d text)
            else some (operator c located)))

abbrev token_or_eof : Option ℕ × Lexer → Option (Token × Lexer)
token_or_eof (none, l) = some (tok_eof, l)
token_or_eof (some c, l) = token_from c l

-- `none` is a call that does not return.
unfoldable pub take_token : Lexer → Option (Token × Lexer)
unfolding take leave_imports token_from skip_to_next_token
take_token l =
    let (c, next) = take_next_char (skip_to_next_token l) in
    token_or_eof (leave_imports next.stack c next)

-- `source`, `lastLocation` and `stack` go back; the rest of the state stays as the token left it.
abbrev restored : Lexer → Token × Lexer → Token × Lexer
restored l (token, after) =
    (token, record after { source = l.source; last_location = l.last_location; stack = l.stack })

unfoldable pub peek_token : Lexer → Option (Token × Lexer)
unfolding take_token skip_to_next_token
peek_token l = let spaced = skip_to_next_token l in Option.map (restored spaced) (take_token spaced)

-- As the source has it, the stack does not go back.
abbrev taken_if : (Token → Bool) → Lexer → Token × Lexer → Bool × Lexer
taken_if is_token l (token, after) =
    if is_token token
    then (true, after)
    else (false, record after { source = l.source; last_location = l.last_location })

unfoldable pub take_token_if : (Token → Bool) → Lexer → Option (Bool × Lexer)
unfolding take_token skip_to_next_token
take_token_if is_token l =
    let spaced = skip_to_next_token l in Option.map (taken_if is_token spaced) (take_token spaced)
