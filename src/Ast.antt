-- ===== src/Ast.antt =====
-- zirgen/dsl/ast.h and zirgen/dsl/ast.cpp: the syntax tree of the Zirgen language. A node is a
-- `shared_ptr` in the source, which may be null after a syntax error, so each sort of node has `null`.
pub mod Equal
pub mod Print
mod Tests
use zirgen.Prelude.{ℕ, List, Bool, Option}
use zirgen.Lexer.Reader.{Location}

abbrev pub Name : Type 0
Name = List ℕ

pub data Access : Type 0 where
  access_default access_global access_public : Access

mutual
  -- `Expression::Ptr`
  pub data Expression : Type 0 where
    null : Expression
    literal : Location → ℕ → Expression
    string_literal : Location → Name → Expression
    ident : Location → Name → Expression
    lookup : Location → Expression → Name → Expression
    subscript : Location → Expression → Expression → Expression
    specialize : Location → Expression → Expressions → Expression
    construct : Location → Expression → Expressions → Expression
    block : Location → Statements → Expression → Expression
    map : Location → Expression → Name → Expression → Expression
    reduce : Location → Expression → Expression → Expression → Expression
    switch : Location → Expression → Expressions → Bool → Expression
    range : Location → Expression → Expression → Expression
    back : Location → Expression → Expression → Expression
    array_literal : Location → Expressions → Expression

  -- `Expression::Vec`
  pub data Expressions : Type 0 where
    no_expressions : Expressions
    expression : Expression → Expressions → Expressions

  pub data Statement : Type 0 where
    definition : Location → Name → Expression → Access → Statement
    declaration : Location → Name → Expression → Access → Statement
    constraint : Location → Expression → Expression → Statement
    void : Location → Expression → Statement
    directive : Location → Name → Expressions → Statement

  pub data Statements : Type 0 where
    no_statements : Statements
    statement : Statement → Statements → Statements

pub record Attribute : Type 0 where
  pub loc : Location
  pub name : Name

pub record Parameter : Type 0 where
  pub loc : Location
  pub name : Name
  pub type : Expression
  pub is_variadic : Bool

pub data Kind : Type 0 where
  object function extern argument major : Kind

pub record Component : Type 0 where
  pub loc : Location
  pub kind : Kind
  pub name : Name
  pub attributes : List Attribute
  pub type_params : List Parameter
  pub params : List Parameter
  pub body : Expression

pub record Module : Type 0 where
  pub loc : Location
  pub body : List (Option Component)

-- `push_back`
abbrev pub push_expression : Expressions → Expression → Expressions
push_expression no_expressions e = expression e no_expressions
push_expression (expression x xs) e = expression x (push_expression xs e)

abbrev pub push_statement : Statements → Statement → Statements
push_statement no_statements e = statement e no_statements
push_statement (statement x xs) e = statement x (push_statement xs e)
