-- ===== src/Parser/Declaration/Laws.antt =====
-- What a module that the parser returns says of the input.
use zirgen.Prelude.{
  List, [], ℕ, ◌≡◌, refl, Option, none, some, true, false, Bool-cases, inl, inr, arith,
}
use zirgen.Lexer.State.{Message, syntax}
use zirgen.Lexer.Token.{Token, is, tok_eof}
use zirgen.Ast.{Module, Component}
use zirgen.Parser.Source.{Parser, TokenSource, after}
use zirgen.Parser.Declaration.{components, finish_module, parse_module}

module _ {S : Type 0} (source : TokenSource S) where
  -- An error that is reported stays noted.
  abbrev pub Notes : Type 0
  Notes = (m : Message) (s : S) → source.failed (source.report m s) ≡ true

  -- The last call took the end of the file, and no error is noted.
  abbrev pub Ended : S → Type 0
  Ended end =
      (source.failed end ≡ false)
      × ((l : S) × (t : Token) × (source.take_token l ≡ some (t, end)) × (is t tok_eof ≡ true))

  finish_module-Ended :
      (found : List (Option Component)) (m : Module) (s s' : Parser S)
      → Notes
      → finish_module source found s ≡ some (some m, s')
      → Ended s'.lexer
  finish_module-Ended found m s s' notes h = go (source.take_token s.lexer) refl h
    where
      go :
          (x : Option (Token × S))
          → source.take_token s.lexer ≡ x
          → finish_module source found s ≡ some (some m, s')
          → Ended s'.lexer
      go none e h = absurd (let h' = rw e at h in ground (arith, h'))
      go (some (t, l)) e h = elim (Bool-cases (is t tok_eof)) [
        | inl eof ↦ elim (Bool-cases (source.failed l)) [
          | inl bad ↦ let h' = rw (e, eof, bad) at h in absurd (cc)
          | inr good ↦
              let h' = rw (e, eof, good) at h in
              let same_end : s'.lexer ≡ l = cc in rw same_end (good, (s.lexer, t, e, eof))
        ]
        | inr more ↦
            let bad = notes (syntax "unexpected input at end of file") l in
            let h' = rw (e, more, bad) at h in absurd (cc)
      ]

  -- Over a source that notes what is reported, a module is returned only after the end of the file was
  -- taken, and with no error noted.
  pub parse_module-Ended :
      (f : ℕ) (m : Module) (s s' : Parser S)
      → Notes
      → parse_module source f s ≡ some (some m, s')
      → Ended s'.lexer
  unfolding parse_module
  parse_module-Ended f m s s' notes h = go (components source f [] s) h
    where
      go :
          (x : Option (List (Option Component) × Parser S))
          → after (finish_module source) x ≡ some (some m, s')
          → Ended s'.lexer
      go none h = absurd (ground (arith, h))
      go (some (found, s1)) h = finish_module-Ended found m s1 s' notes h
