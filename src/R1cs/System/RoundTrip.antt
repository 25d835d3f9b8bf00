-- ===== src/R1cs/System/RoundTrip.antt =====
-- The readers of r1csfile.cpp take a printed system off its sections.
use mathlib.Core.Path.{subst}
use zirgen.Prelude.{
  ℕ, ◌+◌, ◌^◌, ◌<◌, ◌≡◌, refl, sym, ap, ◌∙◌, inl, inr, List, ◌++◌, length, arith, ==_iff,
}
use zirgen.Prelude.Result.{ok}
use zirgen.Bits.Mask.{bit_and-ones}
use zirgen.R1cs.Stream.{read_times, u64_within}
use zirgen.R1cs.Stream.Parses.{
  Parses, in_file, in_section, Parses-bind, Parses-last, Parses-check, Parses-read_times,
}
use zirgen.R1cs.Format.{Content, print_u64, print_all, print_file}
use zirgen.R1cs.Format.Laws.{Parses-u32_within, Parses-u64_within, Parses-bigint_within}
use zirgen.R1cs.Index.{if_present}
use zirgen.R1cs.Index.Laws.{sections_from}
use zirgen.R1cs.Index.Search.{
  if_present-missing, if_present-first, whole_section-first, open_index-file,
}
use zirgen.R1cs.System.{
  Factor, Combination, Constraint, Header, System, header_type, constraints_type, map_type,
  header_fields, read_header, read_factor, read_combination, read_constraint, read_constraints,
  read_map, read_system,
}
use zirgen.R1cs.System.Shape.{
  IsSystem, IsFileOf, IsHeader, IsFactor, IsCombination, IsConstraint, print_header, print_factor,
  print_combination, print_constraint,
}

Parses-header_fields :
    {place : ℕ} (h : Header) → IsHeader h → Parses in_section place header_fields (print_header h) h
unfolding header_fields print_header
Parses-header_fields h is = Parses-bind _ (Parses-u32_within h.field_size is.field_size) (
    Parses-check _ _ (ground (arith, bit_and-ones 3 h.field_size, is.not_empty, is.eights)) (
      Parses-bind _ (Parses-bigint_within h.field_size h.prime is.prime) (
        Parses-bind _ (Parses-u32_within h.n_wires is.n_wires) (
          Parses-bind _ (Parses-u32_within h.n_pub_out is.n_pub_out) (
            Parses-bind _ (Parses-u32_within h.n_pub_in is.n_pub_in) (
              Parses-bind _ (Parses-u32_within h.n_prv_in is.n_prv_in) (
                Parses-bind _ (Parses-u64_within h.n_labels is.n_labels)
                  (Parses-last _ (Parses-u32_within h.n_constraints is.n_constraints)))))))))

module _ (h : Header) where
  Parses-read_factor :
      {place : ℕ} (x : Factor)
      → IsFactor h x
      → Parses in_section place (read_factor h) (print_factor x) x
  unfolding read_factor print_factor
  Parses-read_factor x (word, wire, size) = Parses-bind _ (Parses-u32_within x.index word) (
      Parses-check _ _ (ground (arith, wire))
        (Parses-last _ (Parses-bigint_within h.field_size x.value size)))

  Parses-read_combination :
      {place : ℕ} (l : Combination)
      → IsCombination h l
      → Parses in_section place (read_combination h) (print_combination l) l
  unfolding read_combination print_combination
  Parses-read_combination l (count, factors) =
      Parses-bind _ (Parses-u32_within (length l) count)
        (Parses-read_times print_factor (λ place x is. Parses-read_factor x is) l factors)

  Parses-read_constraint :
      {place : ℕ} (c : Constraint)
      → IsConstraint h c
      → Parses in_section place (read_constraint h) (print_constraint c) c
  unfolding read_constraint print_constraint
  Parses-read_constraint c (a, b, c') = Parses-bind _ (Parses-read_combination c.a a) (
      Parses-bind _ (Parses-read_combination c.b b)
        (Parses-last _ (Parses-read_combination c.c c')))

-- In a printed file, the sections after the header.
module _ (s : System) (contents : List Content) (rest : List ℕ)
    (small : length (print_file 0x73633172 1 contents ++ rest) < 2 ^ 63) (is : IsSystem s)
    (file : IsFileOf s contents) where
  abbrev bytes : List ℕ
  bytes = print_file 0x73633172 1 contents ++ rest

  read_constraints_printed :
      (position : ℕ)
      → (q : ℕ) × (if_present constraints_type
            (sections_from 12 contents)
            (read_constraints s.header (sections_from 12 contents))
            (in_file bytes position)
          ≡ ok (s.constraints, in_file bytes q))
  unfolding read_constraints
  read_constraints_printed =
      if_present-first 0x73633172 1 contents rest small constraints_type file.constraints (λ place.
        subst
          (λ n.
            Parses in_section place (read_times n (read_constraint s.header))
              (print_all print_constraint s.constraints) s.constraints)
          is.n_constraints
          (Parses-read_times print_constraint (λ at c. Parses-read_constraint s.header c)
            s.constraints is.constraints))

  read_map_printed :
      (position : ℕ)
      → (q : ℕ) × (if_present map_type
            (sections_from 12 contents)
            (read_map s.header (sections_from 12 contents))
            (in_file bytes position)
          ≡ ok (s.map, in_file bytes q))
  unfolding read_map
  read_map_printed position = elim file.map [
    | inl (first, n) ↦
        if_present-first 0x73633172 1 contents rest small map_type (inl first)
          (λ place.
            subst
              (λ n.
                Parses in_section place (read_times n u64_within) (print_all print_u64 s.map) s.map)
              n (Parses-read_times print_u64 (λ at l. Parses-u64_within l) s.map is.map))
          position
    | inr (missing, empty) ↦ (
      position,
      if_present-missing 0x73633172 1 contents rest small map_type _ _ missing
          ∙ ap (λ values. ok (values, in_file bytes position)) (sym empty),
    )
  ]

-- A file of a well-formed system is read back: the sections may stand in any order, with sections of
-- other types or more sections of these types among them, and bytes may follow the last section.
pub read_system-print_file :
    (s : System) (contents : List Content) (rest : List ℕ)
    → IsSystem s
    → IsFileOf s contents
    → length (print_file 0x73633172 1 contents ++ rest) < 2 ^ 63
    → (q : ℕ) × (read_system (in_file (print_file 0x73633172 1 contents ++ rest) 0)
        ≡ ok (s, in_file (print_file 0x73633172 1 contents ++ rest) q))
unfolding read_system read_header read_constraints read_map
read_system-print_file s contents rest is file small =
    let opened =
      open_index-file 0x73633172 1 contents rest small (omega arith) (omega arith) file.some_section
        file.n_sections file.fits in
    let (q, header) =
      whole_section-first 0x73633172 1 contents rest small header_type file.header
        (λ place. Parses-header_fields s.header is.header)
        (0 + length (print_file 0x73633172 1 contents)) in
    let (q', constraints) = read_constraints_printed s contents rest small is file q in
    let (q'', map) = read_map_printed s contents rest small is file q' in
    let count = (==_iff (length s.constraints) s.header.n_constraints).1 is.n_constraints in
    (q'', rw (opened, header, constraints, count, map) refl)
