-- ===== src/R1cs/Index.antt =====
-- The constructor `Reader` of r1csfile.cpp up to the first section that it reads, and the search for
-- a section. wtnsfile.cpp has the same code with another magic number and version.
pub mod Laws
pub mod Search
pub mod Sound
use zirgen.Prelude.{
  ℕ, zero, suc, ◌+◌, ◌-◌, ◌/◌, Bool, true, false, not, List, [], ◌∷◌, min, ◌==◌, if◌then◌else◌,
}
use zirgen.Prelude.Result as Result
use zirgen.Prelude.Result.{ok, throws}
use zirgen.R1cs.Stream.{
  File, Reads, Capacity, ◌>>=◌, ◌>>◌, return, check, seek, set_position, read_u32, read_u64,
  read_times, bad_magic, bad_version, no_sections, no_section, left_over,
}

-- `type` is the number in the file, which need not be one of the enumeration's.
pub record Section : Type 0 where
  pub type : ℕ
  pub size : ℕ
  pub position : ℕ

abbrev pub k_2gb : ℕ
k_2gb = 0x7fffffff

-- `while (skip > 0)`: the fuel of `skip_contents` is the number of rounds, and one more.
unfoldable pub skip_loop : ℕ → ℕ → Reads File (Unit {0})
skip_loop zero skip f = ok (tt, f)
skip_loop (suc fuel) skip f =
    if skip == 0
    then ok (tt, f)
    else Result.◌>>=◌ (seek (min k_2gb skip) f) (λ (_, g). skip_loop fuel (skip - min k_2gb skip) g)

unfoldable pub skip_contents : ℕ → Reads File (Unit {0})
unfolding skip_loop
skip_contents size = skip_loop (suc (size / k_2gb)) size

unfoldable pub get_position : Reads File ℕ
get_position f = ok (f.position, f)

unfoldable pub index_section : Reads File Section
unfolding read_u32 read_u64 get_position skip_contents
index_section = do
  type ← read_u32
  size ← read_u64
  position ← get_position
  skip_contents size
  return (record { type = type; size = size; position = position })

unfoldable pub open_index : ℕ → ℕ → Reads File (List Section)
unfolding read_u32 index_section read_times
open_index magic version = do
  m ← read_u32
  check (not (m == magic)) bad_magic
  v ← read_u32
  check (not (v == version)) bad_version
  n_sections ← read_u32
  check (0 == n_sections) no_sections
  read_times n_sections index_section

unfoldable pub seek_to : ℕ → List Section → Reads File ℕ
seek_to type [] f = throws no_section
seek_to type (section ∷ rest) f =
    if section.type == type
    then ok (section.size, record f { position = section.position; eof = false })
    else seek_to type rest f

unfoldable pub is_present : ℕ → List Section → Bool
is_present type [] = false
is_present type (section ∷ rest) = if section.type == type then true else is_present type rest

-- What each reader of a section starts and ends with: the capacity is the section's size, and the
-- reader `m` is to use it up.
unfoldable pub whole_section : {A : Type 0} → ℕ → List Section → Reads Capacity A → Reads File A
unfolding seek_to
whole_section type contents m f = Result.◌>>=◌ (seek_to type contents f) (λ (size, g).
    Result.◌>>=◌ (m (size, g))
      (λ (a, (capacity, h)). if capacity == 0 then ok (a, h) else throws left_over))

-- A section that the file may leave out.
abbrev pub if_present : {A : Type 0} → ℕ → List Section → Reads File (List A) → Reads File (List A)
if_present type contents m = if is_present type contents then m else return []
