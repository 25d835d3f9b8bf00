-- ===== src/Lexer/Reader.antt =====
-- `Reader`: a buffer and a position in it. The pointers `position` and `end` are the position as
-- a number and the length of the buffer.
pub mod Laws
use zirgen.Prelude.{ℕ, suc, ◌-◌, ◌+◌, List, Bool, ◌==◌, if◌then◌else◌, length, get_or}
use zirgen.Word.{add32}

pub record Reader : Type 0 where
  pub buf : List ℕ
  pub position : ℕ
  pub extra : ℕ

abbrev pub open_buffer : List ℕ → Reader
open_buffer text = record { buf = text; position = 0; extra = 0 }

abbrev pub eof : Reader → Bool
eof r = r.position == length r.buf

unfoldable pub peek : Reader → ℕ
peek r = if eof r then 0 else get_or r.buf r.position 0

unfoldable pub take : Reader → ℕ × Reader
take r =
    if eof r
    then (0, record r { extra = add32 r.extra 1 })
    else (get_or r.buf r.position 0, record r { position = suc r.position })

unfoldable pub unget : Reader → Reader
unget r =
    if r.extra == 0
    then record r { position = r.position - 1 }
    else record r { extra = r.extra - 1 }

-- The place in the buffer that a diagnostic points to.
pub record Location : Type 0 where
  pub buf : List ℕ
  pub position : ℕ

abbrev pub location : Reader → Location
location r = record { buf = r.buf; position = r.position }
