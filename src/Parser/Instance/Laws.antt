-- ===== src/Parser/Instance/Laws.antt =====
-- Both sources of tokens note the errors that are reported.
use zirgen.Prelude.{ℕ, List, [], ◌∷◌, ◌++◌, Option, ◌≡◌, refl, true}
use zirgen.Ast.{Name}
use zirgen.Parser.Declaration.Laws.{Notes}
use zirgen.Parser.Instance.{some_of, lexer_source, list_source}

some_of-snoc {ℓ} : {A : Type ℓ} (xs : List A) (x : A) → some_of (xs ++ x ∷ []) ≡ true
some_of-snoc [] x = refl
some_of-snoc (y ∷ xs) x = refl

pub lexer_source-Notes : (files : Name → Option (List ℕ)) → Notes (lexer_source files)
unfolding lexer_source
lexer_source-Notes files m l = some_of-snoc l.errors _

pub list_source-Notes : Notes list_source
unfolding list_source
list_source-Notes m s = some_of-snoc s.errors m
