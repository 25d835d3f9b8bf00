-- ===== src/R1cs/System/Shape.antt =====
-- Which systems a file of circom's can hold, and how they are printed.
use zirgen.Prelude.{ℕ, ◌%◌, ◌^◌, ◌<◌, ◌≡◌, ◌≢◌, List, ◌++◌, length, ◌⊎◌, none, some, []}
use zirgen.R1cs.Format.{Content, Fits, Offers, first_of, print_u32, print_u64, print_all}
use zirgen.R1cs.Stream.Parses.{All}
use zirgen.R1cs.System.{
  Factor, Combination, Constraint, Header, System, header_type, constraints_type, map_type,
}

unfoldable pub print_header : Header → List ℕ
unfolding print_u32 print_u64
print_header h =
    print_u32 h.field_size
    ++ (h.prime
        ++ (print_u32 h.n_wires
            ++ (print_u32 h.n_pub_out
                ++ (print_u32 h.n_pub_in
                    ++ (print_u32 h.n_prv_in
                        ++ (print_u64 h.n_labels ++ print_u32 h.n_constraints))))))

unfoldable pub print_factor : Factor → List ℕ
unfolding print_u32
print_factor x = print_u32 x.index ++ x.value

unfoldable pub print_combination : Combination → List ℕ
unfolding print_u32 print_all print_factor
print_combination l = print_u32 (length l) ++ print_all print_factor l

unfoldable pub print_constraint : Constraint → List ℕ
unfolding print_combination
print_constraint c = print_combination c.a ++ (print_combination c.b ++ print_combination c.c)

pub record IsHeader (h : Header) : Type 0 where
  pub field_size : h.field_size < 2 ^ 32
  pub not_empty : 0 ≢ h.field_size
  pub eights : h.field_size % 8 ≡ 0
  pub prime : length h.prime ≡ h.field_size
  pub n_wires : h.n_wires < 2 ^ 32
  pub n_pub_out : h.n_pub_out < 2 ^ 32
  pub n_pub_in : h.n_pub_in < 2 ^ 32
  pub n_prv_in : h.n_prv_in < 2 ^ 32
  pub n_labels : h.n_labels < 2 ^ 64
  pub n_constraints : h.n_constraints < 2 ^ 32

abbrev pub IsFactor : Header → Factor → Type 0
IsFactor h x = (x.index < 2 ^ 32) × (x.index < h.n_wires) × (length x.value ≡ h.field_size)

abbrev pub IsCombination : Header → Combination → Type 0
IsCombination h l = (length l < 2 ^ 32) × All (IsFactor h) l

abbrev pub IsConstraint : Header → Constraint → Type 0
IsConstraint h c = IsCombination h c.a × IsCombination h c.b × IsCombination h c.c

abbrev pub IsLabel : ℕ → Type 0
IsLabel l = l < 2 ^ 64

pub record IsSystem (s : System) : Type 0 where
  pub header : IsHeader s.header
  pub constraints : All (IsConstraint s.header) s.constraints
  pub n_constraints : length s.constraints ≡ s.header.n_constraints
  pub map : All IsLabel s.map
  pub n_wires : (length s.map ≡ s.header.n_wires) ⊎ (s.map ≡ [])

-- Sections, in any order and perhaps with others among them, of which the first of each type that the
-- reader looks for holds its part of a system. Without a map the section may be missing.
pub record IsFileOf (s : System) (contents : List Content) : Type 0 where
  pub some_section : 0 < length contents
  pub n_sections : length contents < 2 ^ 32
  pub fits : All Fits contents
  pub header : first_of header_type contents ≡ some (print_header s.header)
  pub constraints :
      Offers constraints_type contents (print_all print_constraint s.constraints) s.constraints
  pub map :
      ((first_of map_type contents ≡ some (print_all print_u64 s.map))
        × (length s.map ≡ s.header.n_wires))
      ⊎ ((first_of map_type contents ≡ none) × (s.map ≡ []))
