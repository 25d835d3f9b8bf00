-- ===== src/R1cs/Witness.antt =====
-- `Witness` of zirgen/compiler/r1cs/wtnsfile.h, and how wtnsfile.cpp reads one. Its helpers, its index
-- and its search are those of r1csfile.cpp.
pub mod RoundTrip
use zirgen.Prelude.{ℕ, not, ◌||◌, List, length, ◌==◌, bit_and}
use zirgen.R1cs.Stream.{
  File, Reads, Capacity, ◌>>=◌, ◌>>◌, return, check, u32_within, bigint_within, read_times,
  bad_field_size, missing_values,
}
use zirgen.R1cs.Index.{Section, open_index, is_present, whole_section, if_present}

pub record Header : Type 0 where
  pub field_size : ℕ
  pub prime : List ℕ
  pub n_values : ℕ

pub record Witness : Type 0 where
  pub header : Header
  pub values : List (List ℕ)

-- The members of `SectionType`.
abbrev pub header_type : ℕ
header_type = 1

abbrev pub witness_type : ℕ
witness_type = 2

unfoldable pub header_fields : Reads Capacity Header
unfolding u32_within bigint_within
header_fields = do
  field_size ← u32_within
  check ((0 == field_size) || not (0 == bit_and field_size 7)) bad_field_size
  prime ← bigint_within field_size
  n_values ← u32_within
  return (record { field_size = field_size; prime = prime; n_values = n_values })

unfoldable pub read_header : List Section → Reads File Header
unfolding whole_section header_fields
read_header contents = whole_section header_type contents header_fields

unfoldable pub read_values : Header → List Section → Reads File (List (List ℕ))
unfolding whole_section read_times bigint_within
read_values h contents =
    whole_section witness_type contents (read_times h.n_values (bigint_within h.field_size))

unfoldable pub read_witness : Reads File Witness
unfolding open_index is_present read_header read_values
read_witness = do
  contents ← open_index 0x736e7477 2
  h ← read_header contents
  values ← if_present witness_type contents (read_values h contents)
  check (not (length values == h.n_values)) missing_values
  return (record { header = h; values = values })
