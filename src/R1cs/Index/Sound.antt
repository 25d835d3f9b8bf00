-- ===== src/R1cs/Index/Sound.antt =====
-- The index and the search keep the bytes of the file, and a reader of a section returns in its file
-- what it returns in the section.
use zirgen.Prelude.{
  ℕ, zero, suc, ◌-◌, ◌/◌, not, min, Bool-cases, inl, inr, List, [], ◌∷◌, ◌==◌, ltb, ◌+◌, ◌^◌,
}
use zirgen.Prelude.Result.{Post-bind}
use zirgen.R1cs.Stream.{
  File, Reads, Capacity, ◌>>◌, return, seek, bad_magic, bad_version, no_sections,
}
use zirgen.R1cs.Stream.Ensures.{
  OfBytes, SectionOfBytes, Ensures, Ensures-bind, Ensures-return, Ensures-check, Ensures-read_times,
  Ensures-weaken, Ensures-read_u32, Ensures-read_u64,
}
use zirgen.R1cs.Index.{
  Section, k_2gb, skip_loop, skip_contents, get_position, index_section, open_index, seek_to,
  is_present, whole_section, if_present,
}

abbrev Any : {A : Type 0} → A → Type 0
Any a = Unit

Ensures-get_position : Ensures OfBytes Any get_position
unfolding get_position
Ensures-get_position = record { from = λ f h. (tt, h) }

Ensures-seek : (n : ℕ) → Ensures OfBytes Any (seek n)
Ensures-seek n = record {
  from = λ f h. elim (Bool-cases (ltb (f.position + n) (2 ^ 63))) [
    | inl e ↦ rw e (tt, h)
    | inr e ↦ rw e tt
  ];
}

Ensures-skip_loop : (fuel skip : ℕ) → Ensures OfBytes Any (skip_loop fuel skip)
unfolding skip_loop
Ensures-skip_loop zero skip = record { from = λ f h. (tt, h) }
Ensures-skip_loop (suc fuel) skip =
    let rest = Ensures-skip_loop fuel (skip - min k_2gb skip) in
    record {
      from = λ f h. elim (Bool-cases (skip == 0)) [
        | inl e ↦ rw e (tt, h)
        | inr e ↦ rw e (
            Post-bind _ _ (seek (min k_2gb skip) f) _ ((Ensures-seek (min k_2gb skip)).from f h)
              (λ (_, g) (_, i). rest.from g i))
      ];
    }

Ensures-skip_contents : (size : ℕ) → Ensures OfBytes Any (skip_contents size)
unfolding skip_contents
Ensures-skip_contents size = Ensures-skip_loop (suc (size / k_2gb)) size

Ensures-index_section : Ensures OfBytes Any index_section
unfolding index_section
Ensures-index_section = Ensures-bind Ensures-read_u32 (λ type _.
    Ensures-bind Ensures-read_u64 (λ size _.
      Ensures-bind
        {k = λ position.
          skip_contents size >> return (record { type = type; size = size; position = position })}
        Ensures-get_position
        (λ position _.
          Ensures-bind (Ensures-skip_contents size)
            (λ _ _. Ensures-return (record { type = type; size = size; position = position }) tt))))

pub Ensures-open_index : (magic version : ℕ) → Ensures OfBytes Any (open_index magic version)
unfolding open_index
Ensures-open_index magic version = Ensures-bind Ensures-read_u32 (λ m _.
    Ensures-check (not (m == magic)) bad_magic (λ _. Ensures-bind Ensures-read_u32 (λ v _.
      Ensures-check (not (v == version)) bad_version (λ _. Ensures-bind Ensures-read_u32 (λ n _.
        Ensures-check (0 == n) no_sections
          (λ _. Ensures-weaken (λ _ _. tt) (Ensures-read_times n Ensures-index_section)))))))

Ensures-seek_to : (type : ℕ) (contents : List Section) → Ensures OfBytes Any (seek_to type contents)
unfolding seek_to
Ensures-seek_to type [] = record { from = λ f h. tt }
Ensures-seek_to type (section ∷ rest) =
    let later = Ensures-seek_to type rest in
    record {
      from = λ f h. elim (Bool-cases (section.type == type)) [
        | inl e ↦ rw e (tt, h)
        | inr e ↦ rw e (later.from f h)
      ];
    }

pub Ensures-whole_section :
    {A : Type 0} {P : A → Type 0} (type : ℕ) (contents : List Section) {m : Reads Capacity A}
    → Ensures SectionOfBytes P m
    → Ensures OfBytes P (whole_section type contents m)
unfolding whole_section
Ensures-whole_section {P} type contents {m} one = record {
  from = λ f h.
      Post-bind _ _ (seek_to type contents f) _ ((Ensures-seek_to type contents).from f h)
        (λ (size, g) (_, i).
          Post-bind _ _ (m (size, g)) _ (one.from (size, g) i) (λ (a, (capacity, file)) (p, j).
            elim (Bool-cases (capacity == 0)) [ inl e ↦ rw e (p, j) | inr e ↦ rw e tt ]));
}

-- A section that may be missing.
pub Ensures-if_present :
    {A : Type 0} {P : List A → Type 0} (type : ℕ) (contents : List Section)
    {m : Reads File (List A)}
    → Ensures OfBytes P m
    → P []
    → Ensures OfBytes P (if_present type contents m)
Ensures-if_present type contents one empty = elim (Bool-cases (is_present type contents)) [
  | inl e ↦ rw e one
  | inr e ↦ rw e (Ensures-return [] empty)
]
