-- ===== src/Ast/Print/Laws.antt =====
-- A printed string can be read back.
use zirgen.Prelude.{
  ltb, ◌≤◌, ℕ, List, [], ◌∷◌, ◌++◌, ◌==◌, ◌||◌, ◌≡◌, refl, if◌then◌else◌, Option, none, some, Bool,
  true, false, Bool-cases, inl, inr, arith, ap, ◌∙◌,
}
use mathlib.Core.List.{append_assoc}
use zirgen.Ast.Print.{escaped, emit_string}

abbrev opened : ℕ → Option (List ℕ × List ℕ) → Option (List ℕ × List ℕ)
opened c none = none
opened c (some (s, rest)) = some (c ∷ s, rest)

-- The character that an escape of JSON stands for. The escape with `u` and four digits, which
-- `emit_string` does not write, is not read.
abbrev escape : ℕ → Option ℕ
escape c =
    if c == b'"' || (c == b'\\' || c == b'/')
    then some c
    else (if c == b'b'
        then some 8
        else (if c == b'f'
            then some 12
            else (if c == b'n'
                then some 10
                else (if c == b'r' then some 13 else (if c == b't' then some 9 else none)))))

abbrev escaped_with : Option ℕ → Option (List ℕ × List ℕ) → Option (List ℕ × List ℕ)
escaped_with none r = none
escaped_with (some c) r = opened c r

-- A string of JSON behind its first quote; `slash` is true behind a backslash. A control character
-- must not stand in it.
unfoldable pub unescaped : Bool → List ℕ → Option (List ℕ × List ℕ)
unescaped slash [] = none
unescaped true (c ∷ rest) = escaped_with (escape c) (unescaped false rest)
unescaped false (c ∷ rest) =
    let plain = unescaped false rest in
    let next = unescaped true rest in
    if c == b'"'
    then some ([], rest)
    else (if c == b'\\' then next else (if ltb c 0x20 then none else opened c plain))

unfoldable pub read_string : List ℕ → Option (List ℕ × List ℕ)
unfolding unescaped
read_string [] = none
read_string (c ∷ rest) = let inside = unescaped false rest in if c == b'"' then inside else none

-- No control characters.
abbrev pub IsPlain : List ℕ → Type 0
IsPlain [] = Unit
IsPlain (c ∷ s) = (0x20 ≤ c) × IsPlain s

escape_self : (c : ℕ) → (c == b'\\' || c == b'"') ≡ true → escape c ≡ some c
escape_self c e = ground (arith, e)

unescaped-escaped :
    (s rest : List ℕ) → IsPlain s → unescaped false (escaped s ++ b'"' ∷ rest) ≡ some (s, rest)
unfolding unescaped escaped
unescaped-escaped [] rest h = refl
unescaped-escaped (c ∷ s) rest (p, h) = elim (Bool-cases (c == b'\\' || c == b'"')) [
  | inl e ↦ rw (e, escape_self c e) (ap (opened c) (unescaped-escaped s rest h))
  | inr e ↦
      let quote : (c == b'"') ≡ false = ground (arith, e) in
      let slash : (c == b'\\') ≡ false = ground (arith, e) in
      let control : ltb c 0x20 ≡ false = ground (arith, p) in
      rw (e) (rw (quote, slash, control) (ap (opened c) (unescaped-escaped s rest h)))
]

-- A reader of the strings of JSON gets from what `emit_string` prints for a text without control
-- characters the text itself, and what follows it.
pub read_string-emit_string :
    (s rest : List ℕ)
    → IsPlain s
    → ◌≡◌ {A = Option (List ℕ × List ℕ)} (read_string (emit_string s ++ rest)) (some (s, rest))
unfolding emit_string read_string
read_string-emit_string s rest h =
    ap (unescaped false) (append_assoc (escaped s) (b'"' ∷ []) rest) ∙ unescaped-escaped s rest h
