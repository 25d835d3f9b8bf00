-- ===== src/R1cs/Witness/RoundTrip.antt =====
-- The reader of wtnsfile.cpp gives a printed witness back.
use mathlib.Core.Path.{subst}
use zirgen.Prelude.{ℕ, ◌+◌, ◌%◌, ◌^◌, ◌<◌, ◌≡◌, ◌≢◌, refl, List, ◌++◌, some, length, arith, ==_iff}
use zirgen.Prelude.Result.{ok}
use zirgen.Bits.Mask.{bit_and-ones}
use zirgen.R1cs.Stream.{read_times, bigint_within}
use zirgen.R1cs.Stream.Parses.{
  Parses, in_file, in_section, All, Parses-bind, Parses-last, Parses-check, Parses-read_times,
}
use zirgen.R1cs.Format.{Content, Fits, Offers, first_of, print_u32, print_all, print_file}
use zirgen.R1cs.Format.Laws.{Parses-u32_within, Parses-bigint_within}
use zirgen.R1cs.Index.Search.{if_present-first, whole_section-first, open_index-file}
use zirgen.R1cs.Witness.{
  Header, Witness, header_type, witness_type, header_fields, read_header, read_values, read_witness,
}

unfoldable pub print_header : Header → List ℕ
unfolding print_u32
print_header h = print_u32 h.field_size ++ (h.prime ++ print_u32 h.n_values)

-- A value is its own bytes.
abbrev pub print_values : List (List ℕ) → List ℕ
print_values values = print_all (λ v. v) values

pub record IsWitness (w : Witness) : Type 0 where
  pub field_size : w.header.field_size < 2 ^ 32
  pub not_empty : 0 ≢ w.header.field_size
  pub eights : w.header.field_size % 8 ≡ 0
  pub prime : length w.header.prime ≡ w.header.field_size
  pub few : w.header.n_values < 2 ^ 32
  pub n_values : length w.values ≡ w.header.n_values
  pub values : All (λ v. length v ≡ w.header.field_size) w.values

-- As for a system; without values the section may be missing.
pub record IsFileOf (w : Witness) (contents : List Content) : Type 0 where
  pub some_section : 0 < length contents
  pub n_sections : length contents < 2 ^ 32
  pub fits : All Fits contents
  pub header : first_of header_type contents ≡ some (print_header w.header)
  pub values : Offers witness_type contents (print_values w.values) w.values

Parses-header_fields :
    {place : ℕ} (w : Witness)
    → IsWitness w
    → Parses in_section place header_fields (print_header w.header) w.header
unfolding header_fields print_header
Parses-header_fields w is = Parses-bind _ (Parses-u32_within w.header.field_size is.field_size) (
    Parses-check _ _ (ground (arith, bit_and-ones 3 w.header.field_size, is.not_empty, is.eights)) (
      Parses-bind _ (Parses-bigint_within w.header.field_size w.header.prime is.prime)
        (Parses-last _ (Parses-u32_within w.header.n_values is.few))))

Parses-values :
    {place : ℕ} (w : Witness)
    → IsWitness w
    → Parses in_section place
        (read_times w.header.n_values (bigint_within w.header.field_size))
        (print_values w.values)
        w.values
Parses-values {place} w is =
    subst
      (λ n.
        Parses in_section place (read_times n (bigint_within w.header.field_size))
          (print_values w.values) w.values)
      is.n_values
      (Parses-read_times (λ v. v) (λ at v. Parses-bigint_within w.header.field_size v) w.values
        is.values)

-- A file of a well-formed witness is read back: the sections may stand in any order, with sections of
-- other types or more sections of these types among them, and bytes may follow the last section.
pub read_witness-print_file :
    (w : Witness) (contents : List Content) (rest : List ℕ)
    → IsWitness w
    → IsFileOf w contents
    → length (print_file 0x736e7477 2 contents ++ rest) < 2 ^ 63
    → (q : ℕ) × (read_witness (in_file (print_file 0x736e7477 2 contents ++ rest) 0)
        ≡ ok (w, in_file (print_file 0x736e7477 2 contents ++ rest) q))
unfolding read_witness read_header read_values
read_witness-print_file w contents rest is file small =
    let opened =
      open_index-file 0x736e7477 2 contents rest small (omega arith) (omega arith) file.some_section
        file.n_sections file.fits in
    let (q, header) =
      whole_section-first 0x736e7477 2 contents rest small header_type file.header
        (λ place. Parses-header_fields w is) (0 + length (print_file 0x736e7477 2 contents)) in
    let (q', values) =
      if_present-first 0x736e7477 2 contents rest small witness_type file.values
        (λ place. Parses-values w is) q in
    let count = (==_iff (length w.values) w.header.n_values).1 is.n_values in
    (q', rw (opened, header, values, count) refl)
