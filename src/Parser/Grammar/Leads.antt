-- ===== src/Parser/Grammar/Leads.antt =====
-- How the parser gets through the tokens of an operand, and reads what is in brackets.
use zirgen.Prelude.{
  ℕ, suc, ◌+◌, ◌≤◌, ◌≡◌, refl, ◌∙◌, List, ◌∷◌, Bool, true, false, ◌||◌, arith, Bool-cases, inl, inr,
  ◌⊎◌,
}
use mathlib.Core.Path.{subst}
use zirgen.Word.Signed.{pos}
use zirgen.Lexer.Token.{is, tok_curly_l, tok_minus, tok_paren_l, tok_paren_r}
use zirgen.Lexer.State.{Message}
use zirgen.Ast.{Expression, null}
use zirgen.Parser.Source.{Parser, Step, ◌>>=◌}
use zirgen.Parser.Instance.{Tokens, Lexeme, list_source, first_token}
use zirgen.Parser.Expression.{is_null, starts_primary}
use zirgen.Parser.Descent.{parse_primary, parse_expression, parse_negate, parse_parenthesized}
use zirgen.Parser.Grammar.{
  Op, op_range, op_and, op_add, op_sub, op_mul, op_div, op_mod, op_token, op_node, neg_node, level,
  Stop, stop_token, stop_paren, Next, operator, stop, next_token, mark,
}
use zirgen.Parser.Grammar.Steps.{
  Runs, Runs-unique, spend, primary, climb, whole, before, primary_stops, Below, binary_stops,
  expression_stops,
}
use zirgen.Parser.Grammar.Climb.{climb-op}

abbrev negation : ℕ → Step Tokens Expression
negation f = parse_negate list_source f

module _ (errors : List Message) (test_num : ℕ) where
  abbrev pub at : List Lexeme → Lexeme → Parser Tokens
  at = before errors test_num

  -- How the parser gets through `tokens`, written for `e` in front of `rest`: it reads the leftmost
  -- primary expression, and its loop over operators goes from there to `e`.
  pub record Leads (e : Expression) (p : ℕ) (tokens rest : List Lexeme) (last end : Lexeme)
      : Type 0 where
    pub first : Expression
    pub mid : List Lexeme
    pub mid_last : Lexeme
    pub next : Next
    pub is_there : is_null first ≡ false
    pub at_next : first_token mid ≡ next_token next
    pub begins :
        (starts_primary (first_token tokens) ≡ true)
        ⊎ ((first_token tokens ≡ tok_minus)
            × Runs negation (at tokens last) (first, at mid mid_last))
    pub reads_first : Runs (primary null) (at tokens last) (first, at mid mid_last)
    pub climbs :
        (q : ℕ) (r : Expression × Parser Tokens)
        → q ≤ p
        → Runs (climb e q) (at rest end) r
        → Runs (climb first q) (at mid mid_last) r

  pub primary_ends :
      (n : Next) (left : Expression) (rest : List Lexeme) (last : Lexeme)
      → is_null left ≡ false
      → first_token rest ≡ next_token n
      → Runs (primary left) (at rest last) (left, at rest last)
  primary_ends n left rest last h e =
      spend (primary left) (at rest last) 0
        (λ f _. primary_stops errors test_num n f left rest last h e)

  -- One operator behind what leads to its left operand.
  pub Leads-inside :
      (o : Op) (l r : Expression) (n : Next) (tokens right rest : List Lexeme)
      (last left_end end : Lexeme)
      → Below n (suc (level o))
      → first_token rest ≡ next_token n
      → Leads l (level o) tokens (mark (op_token o) ∷ right) last left_end
      → Leads r (suc (level o)) right rest (mark (op_token o)) end
      → Leads (op_node o l r) (level o) tokens rest last end
  Leads-inside o l r n tokens right rest last left_end end below e a b = record {
    first = a.first;
    mid = a.mid;
    mid_last = a.mid_last;
    next = a.next;
    is_there = a.is_there;
    at_next = a.at_next;
    begins = a.begins;
    reads_first = a.reads_first;
    climbs = λ q out le h. a.climbs q out le (
        climb-op errors test_num o q l b.first r b.next right b.mid rest left_end
          (mark (op_token o)) end b.mid_last out le b.reads_first b.at_next
          (b.climbs (suc (level o)) (r, at rest end) (omega arith)
            (binary_stops errors test_num n (suc (level o)) r rest end below e))
          h);
  }

  pub Leads-atom :
      (e : Expression) (p : ℕ) (n : Next) (tokens rest : List Lexeme) (last end : Lexeme)
      → is_null e ≡ false
      → first_token rest ≡ next_token n
      → (starts_primary (first_token tokens) ≡ true)
        ⊎ ((first_token tokens ≡ tok_minus) × Runs negation (at tokens last) (e, at rest end))
      → Runs (primary null) (at tokens last) (e, at rest end)
      → Leads e p tokens rest last end
  Leads-atom e p n tokens rest last end h q b r = record {
    first = e;
    mid = rest;
    mid_last = end;
    next = n;
    is_there = h;
    at_next = q;
    begins = b;
    reads_first = r;
    climbs = λ q out le k. k;
  }

  -- The steps of the loop of `parseExpression`.
  operator-step :
      (o : Op) (f : ℕ) (left : Expression) (rest : List Lexeme) (last : Lexeme)
      → is_null left ≡ false
      → first_token rest ≡ op_token o
      → parse_expression list_source (suc f) (pos 0) left (at rest last)
        ≡ (climb left 0 f >>= λ e. whole e f) (at rest last)
  unfolding parse_expression list_source
  operator-step op_range f left rest last h e = rw (e, h) refl
  operator-step op_and f left rest last h e = rw (e, h) refl
  operator-step op_add f left rest last h e = rw (e, h) refl
  operator-step op_sub f left rest last h e = rw (e, h) refl
  operator-step op_mul f left rest last h e = rw (e, h) refl
  operator-step op_div f left rest last h e = rw (e, h) refl
  operator-step op_mod f left rest last h e = rw (e, h) refl

  second : {a b : Bool} → a ≡ false → (a || b) ≡ true → b ≡ true
  second {a = true} e h = absurd (ground (arith, e))
  second {a = false} e h = h

  primary-step :
      (f : ℕ) (tokens : List Lexeme) (last : Lexeme)
      → starts_primary (first_token tokens) ≡ true
      → parse_expression list_source (suc f) (pos 0) null (at tokens last)
        ≡ (primary null f >>= λ e. whole e f) (at tokens last)
  unfolding parse_expression starts_primary list_source
  primary-step f tokens last h = elim (Bool-cases (is (first_token tokens) tok_curly_l)) [
    | inl c ↦ rw c refl
    | inr c ↦ rw (c, second c h) refl
  ]

  minus-step :
      (f : ℕ) (tokens : List Lexeme) (last : Lexeme)
      → first_token tokens ≡ tok_minus
      → parse_expression list_source (suc f) (pos 0) null (at tokens last)
        ≡ (negation f >>= λ e. whole e f) (at tokens last)
  unfolding parse_expression list_source
  minus-step f tokens last h = rw h refl

  -- Two runs one after the other, behind a step of the loop.
  then-whole :
      (p : ℕ → Step Tokens Expression) (left e out : Expression) (s m m' : Parser Tokens)
      → ((f : ℕ) → whole left (suc f) s ≡ (p f >>= λ x. whole x f) s)
      → Runs p s (e, m)
      → Runs (whole e) m (out, m')
      → Runs (whole left) s (out, m')
  then-whole p left e out s m m' step (b1, h1) (b2, h2) =
      spend (whole left) s (b1 + b2)
        λ f enough. step f ∙ rw (h1 f (omega arith)) (h2 f (omega arith))

  -- From the leftmost primary expression on.
  reads-next :
      (n : Next) (t : Stop) (first e : Expression) (mid rest : List Lexeme) (mid_last end : Lexeme)
      → is_null first ≡ false
      → is_null e ≡ false
      → first_token mid ≡ next_token n
      → first_token rest ≡ stop_token t
      → Runs (climb first 0) (at mid mid_last) (e, at rest end)
      → Runs (whole first) (at mid mid_last) (e, at rest end)
  reads-next (operator o) t first e mid rest mid_last end h k at_next at_end run =
      then-whole (climb first 0) first e e (at mid mid_last) (at rest end) (at rest end)
        (λ f. operator-step o f first mid mid_last h at_next) run
        (expression_stops errors test_num t e rest end k at_end)
  reads-next (stop u) t first e mid rest mid_last end h k at_next at_end run =
      subst (Runs (whole first) (at mid mid_last))
        (Runs-unique (climb first 0)
          (binary_stops errors test_num (stop u) 0 first mid mid_last tt at_next) run)
        (expression_stops errors test_num u first mid mid_last h at_next)

  pub Leads-reads :
      (t : Stop) (e : Expression) (p : ℕ) (tokens rest : List Lexeme) (last end : Lexeme)
      → is_null e ≡ false
      → first_token rest ≡ stop_token t
      → Leads e p tokens rest last end
      → Runs (whole null) (at tokens last) (e, at rest end)
  Leads-reads t e p tokens rest last end k at_end a =
      let run =
        a.climbs 0 (e, at rest end) (omega arith)
          (binary_stops errors test_num (stop t) 0 e rest end tt at_end) in
      let loop =
        reads-next a.next t a.first e a.mid rest a.mid_last end a.is_there k a.at_next at_end run in
      elim a.begins [
        | inl starts ↦
            then-whole (primary null) null a.first e (at tokens last) (at a.mid a.mid_last)
              (at rest end) (λ f. primary-step f tokens last starts) a.reads_first loop
        | inr (minus, reads) ↦
            then-whole negation null a.first e (at tokens last) (at a.mid a.mid_last) (at rest end)
              (λ f. minus-step f tokens last minus) reads loop
      ]

  pub Below-all : (n : Next) → Below n 6
  Below-all (operator op_range) = omega arith
  Below-all (operator op_and) = omega arith
  Below-all (operator op_add) = omega arith
  Below-all (operator op_sub) = omega arith
  Below-all (operator op_mul) = omega arith
  Below-all (operator op_div) = omega arith
  Below-all (operator op_mod) = omega arith
  Below-all (stop t) = tt

  -- An operand that no operator can be part of is read as a primary expression.
  Leads-primary :
      (n : Next) (e : Expression) (tokens rest : List Lexeme) (last end : Lexeme)
      → first_token rest ≡ next_token n
      → Leads e 6 tokens rest last end
      → Runs (primary null) (at tokens last) (e, at rest end)
  Leads-primary n e tokens rest last end q a =
      subst (Runs (primary null) (at tokens last))
        (Runs-unique (climb a.first 6)
          (binary_stops errors test_num a.next 6 a.first a.mid a.mid_last (Below-all a.next)
            a.at_next)
          (a.climbs 6 (e, at rest end) (omega arith)
            (binary_stops errors test_num n 6 e rest end (Below-all n) q)))
        a.reads_first

  pub Leads-negated :
      (n : Next) (e : Expression) (p : ℕ) (tokens rest : List Lexeme) (last end : Lexeme)
      → is_null e ≡ false
      → first_token rest ≡ next_token n
      → Leads e 6 tokens rest (mark tok_minus) end
      → Leads (neg_node e) p (mark tok_minus ∷ tokens) rest last end
  unfolding parse_negate parse_primary list_source
  Leads-negated n e p tokens rest last end h q a =
      let (b, operand) = Leads-primary n e tokens rest (mark tok_minus) end q a in
      let (b', after) = primary_ends n (neg_node e) rest end refl q in
      let negates : Runs negation (at (mark tok_minus ∷ tokens) last) (neg_node e, at rest end) =
        spend negation (at (mark tok_minus ∷ tokens) last) b (λ f le. rw (operand f le, h) refl) in
      Leads-atom (neg_node e) p n (mark tok_minus ∷ tokens) rest last end refl q
        (inr (refl, negates))
        (spend (primary null) (at (mark tok_minus ∷ tokens) last) (negates.0 + b')
          (λ f le. rw (negates.1 f (omega arith)) (after f (omega arith))))

  abbrev brackets : ℕ → Step Tokens Expression
  brackets f = parse_parenthesized list_source f

  pub Leads-bracketed :
      (n : Next) (e : Expression) (p k : ℕ) (tokens rest : List Lexeme) (last end : Lexeme)
      → is_null e ≡ false
      → first_token rest ≡ next_token n
      → Leads e k tokens (mark tok_paren_r ∷ rest) (mark tok_paren_l) end
      → Leads e p (mark tok_paren_l ∷ tokens) rest last (mark tok_paren_r)
  unfolding parse_parenthesized parse_primary starts_primary list_source
  Leads-bracketed n e p k tokens rest last end h q a =
      let (b, inner) =
        Leads-reads stop_paren e k tokens (mark tok_paren_r ∷ rest) (mark tok_paren_l) end h refl
          a in
      let (b', after) = primary_ends n e rest (mark tok_paren_r) h q in
      let bracketed : Runs brackets (at (mark tok_paren_l ∷ tokens) last)
          (e, at rest (mark tok_paren_r)) =
        spend brackets (at (mark tok_paren_l ∷ tokens) last) b (λ f le. rw (inner f le) refl) in
      Leads-atom e p n (mark tok_paren_l ∷ tokens) rest last (mark tok_paren_r) h q (inl refl) (
        spend (primary null) (at (mark tok_paren_l ∷ tokens) last) (bracketed.0 + b')
          (λ f le. rw (bracketed.1 f (omega arith)) (after f (omega arith))))
