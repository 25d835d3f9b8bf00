-- ===== src/R1cs/Tests.antt =====
-- Small files, read, and instances of the theorems about the readers.
use zirgen.Prelude.{ℕ, ◌≡◌, refl, inl, List, [], ◌∷◌, ◌++◌, arith}
use zirgen.Prelude.Result.{ok, throws}
use zirgen.R1cs.Stream.{
  File, read_item, read_u32, read_u64, read_bigint, u32_of, u64_of, within_capacity, u32_within,
  u64_within, bigint_within, read_times, bad_wire,
}
use zirgen.R1cs.Stream.Parses.{in_file}
use zirgen.R1cs.Format.{
  Content, first_of, little_endian, print_u32, print_u64, print_all, print_section, print_file,
}
use zirgen.R1cs.Index.{
  open_index, index_section, get_position, skip_contents, skip_loop, is_present, seek_to,
  whole_section,
}
use zirgen.R1cs.System.{
  System, header_fields, read_header, read_factor, read_combination, read_constraint,
  read_constraints, read_map, read_system,
}
use zirgen.R1cs.System.Shape.{
  IsSystem, IsFileOf, print_header, print_factor, print_combination, print_constraint,
}
use zirgen.R1cs.System.RoundTrip.{read_system-print_file}
use zirgen.R1cs.System.Sound.{read_system-IsSystem}
use zirgen.R1cs.Witness as Witness
use zirgen.R1cs.Witness.RoundTrip as WitnessFile
use zirgen.R1cs.Witness.RoundTrip.{read_witness-print_file}

abbrev eight : ℕ → List ℕ
eight b = b ∷ 0 ∷ 0 ∷ 0 ∷ 0 ∷ 0 ∷ 0 ∷ 0 ∷ []

-- (3 w1) * (5 w0) = 0 over two wires.
abbrev sample : System
sample = record {
  header = record {
    field_size = 8;
    prime = eight 17;
    n_wires = 2;
    n_pub_out = 1;
    n_pub_in = 0;
    n_prv_in = 0;
    n_labels = 300;
    n_constraints = 1;
  };
  constraints =
      record {
        a = record { index = 1; value = eight 3 } ∷ [];
        b = record { index = 0; value = eight 5 } ∷ [];
        c = [];
      }
      ∷ [];
  map = 0 ∷ 299 ∷ [];
}

-- The map stands first, then a section of another type; a second header is not looked at.
abbrev contents : List Content
contents =
    (3, print_all print_u64 sample.map)
    ∷ (9, 1 ∷ 2 ∷ [])
    ∷ (2, print_all print_constraint sample.constraints)
    ∷ (1, print_header sample.header)
    ∷ (1, [])
    ∷ []

sample-IsSystem : IsSystem sample
sample-IsSystem = record {
  header = record {
    field_size = omega arith;
    not_empty = omega arith;
    eights = refl;
    prime = refl;
    n_wires = omega arith;
    n_pub_out = omega arith;
    n_pub_in = omega arith;
    n_prv_in = omega arith;
    n_labels = omega arith;
    n_constraints = omega arith;
  };
  constraints = omega arith;
  n_constraints = refl;
  map = omega arith;
  n_wires = inl refl;
}

sample-IsFileOf : IsFileOf sample contents
unfolding first_of print_header print_all print_constraint print_combination print_factor print_u32
    print_u64 little_endian
sample-IsFileOf = record {
  some_section = omega arith;
  n_sections = omega arith;
  fits = omega arith;
  header = refl;
  constraints = inl refl;
  map = inl (refl, refl);
}

read_system-print_file_example :
    (q : ℕ) × (read_system (in_file (print_file 0x73633172 1 contents ++ 7 ∷ []) 0)
      ≡ ok (sample, in_file (print_file 0x73633172 1 contents ++ 7 ∷ []) q))
unfolding print_file print_section print_header print_all print_constraint print_combination
    print_factor print_u32 print_u64 little_endian
read_system-print_file_example =
    read_system-print_file sample contents (7 ∷ []) sample-IsSystem sample-IsFileOf (omega arith)

abbrev file : File
file = in_file (print_file 0x73633172 1 contents) 0

-- The labels are read last, and end 40 bytes into the file.
sample_read : read_system file ≡ ok (sample, in_file (print_file 0x73633172 1 contents) 40)
unfolding read_system open_index index_section get_position skip_contents skip_loop is_present
    seek_to whole_section read_header header_fields read_constraints read_constraint
    read_combination read_factor read_map read_times read_item read_u32 read_u64 read_bigint u32_of
    u64_of within_capacity u32_within u64_within bigint_within print_file print_section print_header
    print_all print_constraint print_combination print_factor print_u32 print_u64 little_endian
sample_read = refl

read_system-IsSystem_example : IsSystem sample
unfolding print_file print_section print_header print_all print_constraint print_combination
    print_factor print_u32 print_u64 little_endian
read_system-IsSystem_example = read_system-IsSystem file (omega arith) sample_read

abbrev wrong : System
wrong = record sample { header = record sample.header { n_wires = 1 } }

-- Wire 1 is not one of a single wire.
wrong_wire :
    read_system (
      in_file
        (print_file 0x73633172 1
          ((1, print_header wrong.header) ∷ (2, print_all print_constraint wrong.constraints) ∷ []))
        0)
    ≡ throws bad_wire
unfolding read_system open_index index_section get_position skip_contents skip_loop is_present
    seek_to whole_section read_header header_fields read_constraints read_constraint
    read_combination read_factor read_times read_item read_u32 read_u64 read_bigint u32_of u64_of
    within_capacity u32_within u64_within bigint_within print_file print_section print_header
    print_all print_constraint print_combination print_factor print_u32 print_u64 little_endian
wrong_wire = refl

abbrev sample_witness : Witness.Witness
sample_witness = record {
  header = record { field_size = 8; prime = eight 17; n_values = 2 };
  values = eight 1 ∷ eight 6 ∷ [];
}

abbrev witness_contents : List Content
witness_contents =
    (2, WitnessFile.print_values sample_witness.values)
    ∷ (1, WitnessFile.print_header sample_witness.header)
    ∷ []

read_witness-print_file_example :
    (q : ℕ) × (Witness.read_witness (in_file (print_file 0x736e7477 2 witness_contents ++ []) 0)
      ≡ ok (sample_witness, in_file (print_file 0x736e7477 2 witness_contents ++ []) q))
unfolding WitnessFile.print_header first_of print_file print_section print_all print_u32 print_u64
    little_endian
read_witness-print_file_example =
    read_witness-print_file sample_witness witness_contents []
      (record {
        field_size = omega arith;
        not_empty = omega arith;
        eights = refl;
        prime = refl;
        few = omega arith;
        n_values = refl;
        values = omega arith;
      })
      (record {
        some_section = omega arith;
        n_sections = omega arith;
        fits = omega arith;
        header = refl;
        values = inl refl;
      })
      (omega arith)
