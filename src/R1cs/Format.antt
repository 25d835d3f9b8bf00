-- ===== src/R1cs/Format.antt =====
-- The layout of the files in https://www.github.com/iden3/r1csfile, which the comments of
-- zirgen/compiler/r1cs/r1csfile.cpp refer to, as functions that print: little-endian numbers, and
-- sections that each say their type and size.
pub mod Laws
use zirgen.Prelude.{
  ℕ, zero, suc, ◌/◌, ◌%◌, ◌^◌, ◌<◌, ◌≡◌, ◌⊎◌, ◌==◌, if◌then◌else◌, Bool, true, false, List, [], ◌∷◌,
  ◌++◌, length, Option, none, some,
}

unfoldable pub little_endian : ℕ → ℕ → List ℕ
little_endian zero x = []
little_endian (suc n) x = (x % 256) ∷ little_endian n (x / 256)

unfoldable pub print_u32 : ℕ → List ℕ
unfolding little_endian
print_u32 x = little_endian 4 x

unfoldable pub print_u64 : ℕ → List ℕ
unfolding little_endian
print_u64 x = little_endian 8 x

unfoldable pub print_all : {A : Type 0} → (A → List ℕ) → List A → List ℕ
print_all print [] = []
print_all print (a ∷ rest) = print a ++ print_all print rest

-- A section's type, and what it holds.
abbrev pub Content : Type 0
Content = ℕ × List ℕ

unfoldable pub print_section : Content → List ℕ
unfolding print_u32 print_u64
print_section (type, body) = print_u32 type ++ (print_u64 (length body) ++ body)

unfoldable pub print_file : ℕ → ℕ → List Content → List ℕ
unfolding print_u32 print_all print_section
print_file magic version contents =
    print_u32 magic
    ++ (print_u32 version ++ (print_u32 (length contents) ++ print_all print_section contents))

-- What a content has to be like for its section to be printed.
abbrev pub Fits : Content → Type 0
Fits (type, body) = (type < 2 ^ 32) × (length body < 2 ^ 64)

-- The body of the first content of a type.
unfoldable pub first_of : ℕ → List Content → Option (List ℕ)
first_of type [] = none
first_of type ((t, body) ∷ rest) = if t == type then some body else first_of type rest

-- The body that a section has, if there is a section; a list without members needs none.
abbrev pub Offers : {A : Type 0} → ℕ → List Content → List ℕ → List A → Type 0
Offers type contents body values =
    (first_of type contents ≡ some body) ⊎ ((first_of type contents ≡ none) × (values ≡ []))

abbrev pub is_some : {A : Type 0} → Option A → Bool
is_some none = false
is_some (some a) = true
