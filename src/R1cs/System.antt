-- ===== src/R1cs/System.antt =====
-- `System` of zirgen/compiler/r1cs/r1csfile.h, and how r1csfile.cpp reads one. What the source reads
-- into the fields of `sys` the readers return; `reserve` only saves copies.
pub mod Shape
pub mod RoundTrip
pub mod Sound
use zirgen.Prelude.{ℕ, not, ◌||◌, List, [], length, leb, ◌==◌, if◌then◌else◌, bit_and}
use zirgen.R1cs.Stream.{
  File, Reads, Capacity, ◌>>=◌, ◌>>◌, return, check, u32_within, u64_within, bigint_within,
  read_times, bad_field_size, bad_wire, missing_constraints,
}
use zirgen.R1cs.Index.{Section, open_index, is_present, whole_section, if_present}

pub record Factor : Type 0 where
  pub index : ℕ
  pub value : List ℕ

abbrev pub Combination : Type 0
Combination = List Factor

pub record Constraint : Type 0 where
  pub a : Combination
  pub b : Combination
  pub c : Combination

pub record Header : Type 0 where
  pub field_size : ℕ
  pub prime : List ℕ
  pub n_wires : ℕ
  pub n_pub_out : ℕ
  pub n_pub_in : ℕ
  pub n_prv_in : ℕ
  pub n_labels : ℕ
  pub n_constraints : ℕ

pub record System : Type 0 where
  pub header : Header
  pub constraints : List Constraint
  pub map : List ℕ

-- The members of `SectionType` that the reader looks for.
abbrev pub header_type : ℕ
header_type = 1

abbrev pub constraints_type : ℕ
constraints_type = 2

abbrev pub map_type : ℕ
map_type = 3

unfoldable pub header_fields : Reads Capacity Header
unfolding u32_within u64_within bigint_within
header_fields = do
  field_size ← u32_within
  check ((0 == field_size) || not (0 == bit_and field_size 7)) bad_field_size
  prime ← bigint_within field_size
  n_wires ← u32_within
  n_pub_out ← u32_within
  n_pub_in ← u32_within
  n_prv_in ← u32_within
  n_labels ← u64_within
  n_constraints ← u32_within
  return (record {
    field_size = field_size;
    prime = prime;
    n_wires = n_wires;
    n_pub_out = n_pub_out;
    n_pub_in = n_pub_in;
    n_prv_in = n_prv_in;
    n_labels = n_labels;
    n_constraints = n_constraints;
  })

unfoldable pub read_header : List Section → Reads File Header
unfolding whole_section header_fields
read_header contents = whole_section header_type contents header_fields

unfoldable pub read_factor : Header → Reads Capacity Factor
unfolding u32_within bigint_within
read_factor h = do
  index ← u32_within
  check (leb h.n_wires index) bad_wire
  value ← bigint_within h.field_size
  return (record { index = index; value = value })

unfoldable pub read_combination : Header → Reads Capacity Combination
unfolding u32_within read_factor read_times
read_combination h = do n_idx ← u32_within; read_times n_idx (read_factor h)

unfoldable pub read_constraint : Header → Reads Capacity Constraint
unfolding read_combination
read_constraint h = do
  a ← read_combination h
  b ← read_combination h
  c ← read_combination h
  return (record { a = a; b = b; c = c })

unfoldable pub read_constraints : Header → List Section → Reads File (List Constraint)
unfolding whole_section read_times read_constraint
read_constraints h contents =
    whole_section constraints_type contents (read_times h.n_constraints (read_constraint h))

unfoldable pub read_map : Header → List Section → Reads File (List ℕ)
unfolding whole_section read_times u64_within
read_map h contents = whole_section map_type contents (read_times h.n_wires u64_within)

unfoldable pub read_system : Reads File System
unfolding open_index is_present read_header read_constraints read_map
read_system = do
  contents ← open_index 0x73633172 1
  h ← read_header contents
  constraints ← if_present constraints_type contents (read_constraints h contents)
  check (not (length constraints == h.n_constraints)) missing_constraints
  map ← if_present map_type contents (read_map h contents)
  return (record { header = h; constraints = constraints; map = map })
