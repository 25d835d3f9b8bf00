-- ===== src/Lexer/Skip.antt =====
-- What stands between two tokens: white space and comments. The loops have as many rounds as
-- there are characters left, and one for the end of the buffer.
pub mod Laws
use zirgen.Prelude.{
  ℕ, zero, suc, ◌-◌, List, Bool, true, false, not, ◌==◌, leb, ◌&&◌, ◌||◌, if◌then◌else◌, length,
}
use zirgen.Lexer.Reader.{Reader, peek, take, unget}
use zirgen.Lexer.State.{Lexer, Message, peek_char, take_next_char, unget_char, error}

abbrev pub rounds : Reader → ℕ
rounds r = suc (length r.buf - r.position)

-- `isspace` of the C library: blank, tab, line feed, vertical tab, form feed, carriage return.
unfoldable pub is_space : ℕ → Bool
is_space c = c == 32 || leb 9 c && leb c 13

unfoldable pub spaces : ℕ → Reader → Reader
unfolding take unget is_space
spaces zero r = r
spaces (suc fuel) r =
    let (c, next) = take r in let rest = spaces fuel next in if is_space c then rest else unget next

unfoldable pub skip_whitespace : Reader → Reader
unfolding spaces
skip_whitespace r = spaces (rounds r) r

unfoldable pub line : ℕ → Reader → Reader
unfolding take unget
line zero r = r
line (suc fuel) r =
    let (c, next) = take r in
    let rest = line fuel next in
    if not (c == b'\n') && not (c == 0) then rest else (if c == 0 then unget next else next)

unfoldable pub skip_to_end_of_line : Reader → Reader
unfolding line
skip_to_end_of_line r = line (rounds r) r

-- Both `do` loops: each goes on with the next character.
unfoldable pub block : ℕ → Lexer → Lexer
unfolding take unget peek error
block zero l = l
block (suc fuel) l =
    let (c, next) = take_next_char l in
    let rest = block fuel next in
    if c == 0
    then error Message.unclosed_comment (unget_char next)
    else (if c == b'*' && peek_char next == b'/' then (take_next_char next).1 else rest)

unfoldable pub skip_to_end_of_block_comment : Lexer → Lexer
unfolding block
skip_to_end_of_block_comment l = block (rounds l.source) l

abbrev pub skip_spaces : Lexer → Lexer
skip_spaces l = record l { source = skip_whitespace l.source }

-- `while (peek() == '/')`
unfoldable pub comments : ℕ → Lexer → Lexer
unfolding take peek skip_whitespace skip_to_end_of_line skip_to_end_of_block_comment
comments zero l = l
comments (suc fuel) l =
    let (c, first) = take_next_char l in
    let (c2, second) = take_next_char first in
    let after_line =
      comments fuel (skip_spaces (record second { source = skip_to_end_of_line second.source })) in
    let after_block = comments fuel (skip_spaces (skip_to_end_of_block_comment second)) in
    if peek_char l == b'/'
    then (if c2 == b'/' then after_line else (if c2 == b'*' then after_block else l))
    else l

unfoldable pub skip_to_next_token : Lexer → Lexer
unfolding skip_whitespace comments
skip_to_next_token l = let spaced = skip_spaces l in comments (rounds spaced.source) spaced
