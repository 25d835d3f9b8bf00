-- ===== src/Ast/Print.antt =====
-- `print` of the nodes and the JSON printers it uses. A stream is the text that has been written.
pub mod Laws
use Prim.Native.String.{String}
use mathlib.Core.List
use zirgen.Prelude.{
  ℕ, zero, suc, ◌+◌, ◌/◌, ◌%◌, List, [], ◌∷◌, ◌++◌, Bool, true, false, ◌==◌, ltb, ◌||◌,
  if◌then◌else◌, Option, none, some,
}
use zirgen.Lexer.Token.{codes}
use zirgen.Ast.{
  Name, Access, access_default, access_global, access_public, Expression, Expressions, Statement,
  Statements, Attribute, Parameter, Kind, Component, Module, null, literal, string_literal, ident,
  lookup, subscript, specialize, construct, block, map, reduce, switch, range, back, array_literal,
  no_expressions, expression, definition, declaration, constraint, void, directive, no_statements,
  statement, object, function, extern, argument, major,
}

abbrev Text : Type 0
Text = List ℕ

-- The loop of `emit_string`.
unfoldable pub escaped : Text → Text
escaped [] = []
escaped (c ∷ s) = if c == b'\\' || c == b'"' then b'\\' ∷ c ∷ escaped s else c ∷ escaped s

unfoldable pub emit_string : Text → Text
unfolding escaped
emit_string s = b'"' ∷ escaped s ++ b'"' ∷ []

-- `out << n`: LLVM writes the decimal digits, of which a `uint64_t` has at most twenty.
unfoldable pub decimal : ℕ → ℕ → Text → Text
decimal zero n acc = acc
decimal (suc fuel) n acc =
    let digit = b'0' + n % 10 in
    let rest = decimal fuel (n / 10) (digit ∷ acc) in if ltb n 10 then digit ∷ acc else rest

unfoldable pub emit_uint : ℕ → Text
unfolding decimal
emit_uint n = decimal 20 n []

abbrev pub emit_bool : Bool → Text
emit_bool true = codes "true"
emit_bool false = codes "false"

-- `join_comma` before each member but the first.
unfoldable pub joined : List Text → Text
joined [] = []
joined (x ∷ []) = x
joined (x ∷ y ∷ rest) = x ++ b',' ∷ joined (y ∷ rest)

-- The constructors and destructors of `Array` and `Dict`, around the members.
abbrev array : List Text → Text
array members = b'[' ∷ joined members ++ b']' ∷ []

abbrev dict : List Text → Text
dict members = b'{' ∷ joined members ++ b'}' ∷ []

abbrev emit_key : String → Text
emit_key k = emit_string (codes k) ++ b':' ∷ []

abbrev attr_string : String → Text → Text
attr_string k v = emit_key k ++ emit_string v

abbrev attr_uint : String → ℕ → Text
attr_uint k v = emit_key k ++ emit_uint v

abbrev attr_bool : String → Bool → Text
attr_bool k v = emit_key k ++ emit_bool v

-- A printed node, or `null`.
abbrev attr_dict : String → Text → Text
attr_dict k v = emit_key k ++ v

abbrev attr_array : String → List Text → Text
attr_array k members = emit_key k ++ array members

abbrev class : String → Text
class name = attr_string "class" (codes name)

abbrev access_members : Access → List Text
access_members access_default = []
access_members access_global = attr_string "access" (codes "global") ∷ []
access_members access_public = attr_string "access" (codes "public") ∷ []

-- The `value` of a block, which is left out when it is null.
abbrev value_member : Expression → Text → List Text
value_member null t = []
value_member _ t = attr_dict "value" t ∷ []

unfoldable mutual
  unfolding emit_string emit_uint joined

  pub print : Expression → Text
  print null = codes "null"
  print (literal l n) = dict (class "Literal" ∷ attr_uint "value" n ∷ [])
  print (string_literal l s) = dict (class "StringLiteral" ∷ attr_string "value" s ∷ [])
  print (ident l n) = dict (class "Ident" ∷ attr_string "name" n ∷ [])
  print (lookup l a n) =
      dict (class "Lookup" ∷ attr_dict "component" (print a) ∷ attr_string "member" n ∷ [])
  print (subscript l a i) =
      dict (class "Subscript" ∷ attr_dict "array" (print a) ∷ attr_dict "element" (print i) ∷ [])
  print (specialize l a xs) =
      dict (class "Specialize" ∷ attr_dict "type" (print a) ∷ attr_array "args" (prints xs) ∷ [])
  print (construct l a xs) =
      dict (class "Construct" ∷ attr_dict "type" (print a) ∷ attr_array "args" (prints xs) ∷ [])
  print (block l ss a) =
      dict (class "Block" ∷ attr_array "body" (print_body ss) ∷ value_member a (print a))
  print (map l a n f) = dict (
      class "Map"
      ∷ attr_dict "array" (print a)
      ∷ attr_string "element" n
      ∷ attr_dict "function" (print f)
      ∷ [])
  print (reduce l a i t) = dict (
      class "Reduce"
      ∷ attr_dict "array" (print a)
      ∷ attr_dict "init" (print i)
      ∷ attr_dict "type" (print t)
      ∷ [])
  print (switch l a xs is_major) = dict (
      class "Switch"
      ∷ attr_dict "selector" (print a)
      ∷ attr_array "cases" (prints xs)
      ∷ attr_bool "isMajor" is_major
      ∷ [])
  print (range l a i) =
      dict (class "Range" ∷ attr_dict "start" (print a) ∷ attr_dict "end" (print i) ∷ [])
  print (back l a i) =
      dict (class "Back" ∷ attr_dict "expression" (print a) ∷ attr_dict "distance" (print i) ∷ [])
  print (array_literal l xs) = dict (class "ArrayLiteral" ∷ attr_array "elements" (prints xs) ∷ [])

  pub prints : Expressions → List Text
  prints no_expressions = []
  prints (expression x xs) = print x ∷ prints xs

  pub print_statement : Statement → Text
  print_statement (definition l n a x) =
      dict
        (class "Definition" ∷ attr_string "name" n ∷ attr_dict "value" (print a) ∷ access_members x)
  print_statement (declaration l n a x) =
      dict
        (class "Declaration" ∷ attr_string "name" n ∷ attr_dict "type" (print a) ∷ access_members x)
  print_statement (constraint l a i) =
      dict (class "Constraint" ∷ attr_dict "left" (print a) ∷ attr_dict "right" (print i) ∷ [])
  print_statement (void l a) = dict (class "Void" ∷ attr_dict "value" (print a) ∷ [])
  print_statement (directive l n xs) =
      dict (class "Directive" ∷ attr_string "name" n ∷ attr_array "args" (prints xs) ∷ [])

  pub print_body : Statements → List Text
  print_body no_statements = []
  print_body (statement s ss) = print_statement s ∷ print_body ss

unfoldable pub print_attribute : Attribute → Text
unfolding emit_string joined
print_attribute a = dict (attr_string "name" a.name ∷ [])

unfoldable pub print_parameter : Parameter → Text
unfolding emit_string joined print
print_parameter p = dict (
    attr_string "name" p.name
    ∷ attr_dict "type" (print p.type)
    ∷ attr_bool "isVariadic" p.is_variadic
    ∷ [])

abbrev kind_text : Kind → Text
kind_text object = codes "object"
kind_text function = codes "function"
kind_text extern = codes "extern"
kind_text argument = codes "argument"
kind_text major = codes "major"

unfoldable pub print_component : Option Component → Text
unfolding emit_string joined print print_attribute print_parameter
print_component none = codes "null"
print_component (some c) = dict (
    attr_string "kind" (kind_text c.kind)
    ∷ attr_string "name" c.name
    ∷ attr_array "attributes" (List.map print_attribute c.attributes)
    ∷ attr_array "type_params" (List.map print_parameter c.type_params)
    ∷ attr_array "params" (List.map print_parameter c.params)
    ∷ attr_dict "body" (print c.body)
    ∷ [])

unfoldable pub print_module : Module → Text
unfolding joined print_component
print_module m = dict (attr_array "body" (List.map print_component m.body) ∷ [])
