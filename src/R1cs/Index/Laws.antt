-- ===== src/R1cs/Index/Laws.antt =====
-- The index of a printed file says where each section stands.
use zirgen.Prelude.{
  ℕ, min, zero, suc, ◌+◌, ◌-◌, ◌*◌, ◌/◌, ◌^◌, ◌<◌, ◌≤◌, ◌≡◌, refl, List, [], ◌∷◌, ◌++◌, length,
  arith,
}
use zirgen.R1cs.Format.{
  Content, Fits, print_u32, print_u64, print_section, print_all, print_file, little_endian,
}
use zirgen.R1cs.Format.Laws.{Parses-read_u32, Parses-read_u64}
use zirgen.R1cs.Stream.{return, ◌>>◌, seek, read_times}
use zirgen.R1cs.Stream.Parses.{
  Parses, in_file, at_file, Parses-bind, Parses-last, Parses-return, Parses-step, Parses-check, All,
}
use zirgen.R1cs.Index.{
  Section, get_position, k_2gb, skip_loop, skip_contents, index_section, open_index,
}

-- The rounds of at most 2 GB together are one seek.
pub skip_loop-seek :
    (fuel skip : ℕ) (bytes : List ℕ) (position : ℕ)
    → skip ≤ fuel * k_2gb
    → position < 2 ^ 63
    → skip_loop fuel skip (in_file bytes position) ≡ seek skip (in_file bytes position)
unfolding skip_loop
skip_loop-seek zero skip bytes position enough below = ground arith
skip_loop-seek (suc fuel) skip bytes position enough below =
    let ih : position + min k_2gb skip < 2 ^ 63 → _ =
      skip_loop-seek fuel (skip - min k_2gb skip) bytes (position + min k_2gb skip) (omega arith) in
    ground (arith, ih)

Parses-skip_contents :
    {place : ℕ} (body : List ℕ) → Parses at_file place (skip_contents (length body)) body tt
unfolding skip_contents
Parses-skip_contents {place} body = record {
  takes = λ before after capacity here fits.
      let rounds = length body / k_2gb in
      rw
        (skip_loop-seek (suc rounds) (length body) (before ++ (body ++ after)) place (omega arith)
          (omega arith))
        (ground arith);
}

-- The section that is printed at a place, and those from a place on.
abbrev pub section_at : ℕ → Content → Section
section_at place (type, body) = record { type = type; size = length body; position = place + 4 + 8 }

abbrev pub sections_from : ℕ → List Content → List Section
sections_from place [] = []
sections_from place (content ∷ rest) =
    section_at place content ∷ sections_from (place + length (print_section content)) rest

Parses-index_section :
    {place : ℕ} (content : Content)
    → Fits content
    → Parses at_file place index_section (print_section content) (section_at place content)
unfolding get_position index_section print_section print_u32 print_u64 little_endian
Parses-index_section {place} (type, body) (t, n) = Parses-bind _ (Parses-read_u32 type t) (
    Parses-bind _ (Parses-read_u64 (length body) n) (
      Parses-step get_position
        (λ position.
          skip_contents (length body)
          >> return (record { type = type; size = length body; position = position }))
        (λ before capacity. refl)
        (Parses-last (λ _. section_at place (type, body)) (Parses-skip_contents body))))

Parses-sections :
    (contents : List Content)
    → All Fits contents
    → {place : ℕ}
    → Parses at_file place
        (read_times (length contents) index_section)
        (print_all print_section contents)
        (sections_from place contents)
unfolding read_times print_all
Parses-sections [] h {place} = Parses-return []
Parses-sections (content ∷ rest) (h, hs) {place} =
    Parses-bind _ (Parses-index_section content h) (Parses-last _ (Parses-sections rest hs))

pub Parses-open_index :
    (magic version : ℕ) (contents : List Content)
    → magic < 2 ^ 32
    → version < 2 ^ 32
    → 0 < length contents
    → length contents < 2 ^ 32
    → All Fits contents
    → Parses at_file 0
        (open_index magic version)
        (print_file magic version contents)
        (sections_from 12 contents)
unfolding open_index print_file print_u32 little_endian
Parses-open_index magic version contents m v some_section n fits =
    Parses-bind _ (Parses-read_u32 magic m) (
      Parses-check _ _ (ground arith) (
        Parses-bind _ (Parses-read_u32 version v) (
          Parses-check _ _ (ground arith) (
            Parses-bind _ (Parses-read_u32 (length contents) n)
              (Parses-check _ _ (ground arith) (Parses-sections contents fits))))))
