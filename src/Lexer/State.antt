-- ===== src/Lexer/State.antt =====
-- The state of the lexer, and its access to the buffer it is in. The source manager belongs to
-- LLVM: what it finds under the name of a file is a parameter of `do_import`.
use Prim.Native.String.{String}
use zirgen.Prelude.{
  ℕ, List, [], ◌∷◌, ◌++◌, Option, none, some, Bool, true, false, ◌||◌, if◌then◌else◌,
}
use zirgen.Lexer.Reader.{Reader, Location, location, open_buffer, take, unget, peek}
use zirgen.Lexer.Token.{same_text, codes}

-- The messages of `error`, the lexer's and then the parser's, whose errors go to the same list.
pub data Message : Type 0 where
  no_digits out_of_range unclosed_string unclosed_comment : Message
  no_file : List ℕ → Message
  syntax : String → Message
  unexpected_name : List ℕ → Message

pub record Diagnostic : Type 0 where
  pub place : Location
  pub message : Message

-- The top of `stack` stands first.
pub record Lexer : Type 0 where
  pub errors : List Diagnostic
  pub stack : List Reader
  pub imported : List (List ℕ)
  pub source : Reader
  pub last_location : Location
  pub identifier : List ℕ
  pub literal : ℕ

-- The constructor. `literal` has no value there; nothing reads it before a literal is taken.
unfoldable pub start : List ℕ → Lexer
start text = record {
  errors = [];
  stack = [];
  imported = [];
  source = open_buffer text;
  last_location = location (open_buffer text);
  identifier = [];
  literal = 0;
}

abbrev pub peek_char : Lexer → ℕ
peek_char l = peek l.source

abbrev pub take_next_char : Lexer → ℕ × Lexer
take_next_char l = let (c, source) = take l.source in (c, record l { source = source })

abbrev pub unget_char : Lexer → Lexer
unget_char l = record l { source = unget l.source }

unfoldable pub error : Message → Lexer → Lexer
error m l = record l { errors = l.errors ++ record { place = location l.source; message = m } ∷ [] }

unfoldable pub in_main : Lexer → Bool
in_main l = elim l.stack [ [] ↦ true | _ ∷ _ ↦ false ]

unfoldable pub has_text : List ℕ → List (List ℕ) → Bool
unfolding same_text
has_text name [] = false
has_text name (t ∷ rest) = same_text t name || has_text name rest

-- The buffer the lexer is in goes on the stack, to come back to it at the end of the new one.
abbrev enter : List ℕ → Lexer → Lexer
enter text l = record l { stack = l.source ∷ l.stack; source = open_buffer text }

unfoldable pub add_preamble : List ℕ → Lexer → Lexer
add_preamble text l = enter text l

-- `files` is `SourceMgr::AddIncludeFile`: the text of the file of that name.
module _ (files : List ℕ → Option (List ℕ)) where
  abbrev include_file : List ℕ → Option (List ℕ) → Lexer → Lexer
  include_file filename none l = error (no_file filename) l
  include_file filename (some text) l = enter text l

  unfoldable pub do_import : List ℕ → Lexer → Lexer
  unfolding error has_text
  do_import name l =
      let filename = name ++ codes ".zir" in
      if has_text name l.imported
      then l
      else include_file filename (files filename) (record l { imported = name ∷ l.imported })
