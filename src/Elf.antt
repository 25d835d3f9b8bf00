-- ===== src/Elf.antt =====
-- `loadElf` of risc0/core/elf.cpp: the checks of an ELF file and the words that it puts in memory.
pub mod Laws
pub mod Header
pub mod Load
pub mod Start
mod Tests
use zirgen.Prelude.{
  ℕ, zero, suc, ◌+◌, ◌-◌, ◌*◌, ◌/◌, ◌%◌, ◌^◌, min, Bool, true, false, not, ◌||◌, ◌&&◌, Option, none,
  some, List, [], ◌∷◌, ltb, leb, ◌==◌, if◌then◌else◌, bit_or, length, get_or,
}
use zirgen.Prelude.Result.{Result, ok, throws, ◌>>=◌}
use zirgen.Word.{add32}
use zirgen.Emu.Image.{update}
use zirgen.R1cs.Stream.{take, drop}

-- The exceptions. `uninitialised` stands for what C++ leaves undefined: fields of the header that the
-- file was too short for. `endless` is never thrown.
pub data ElfError : Type 0 where
  uninitialised bad_magic not_32_bit not_little_endian bad_version not_executable : ElfError
  not_risc_v bad_entry many_headers not_aligned before_region wraps file_larger : ElfError
  overlapping endless : ElfError

-- `istringstream`: a read or a seek that fails makes every later one fail.
pub record Input : Type 0 where
  pub bytes : List ℕ
  pub position : ℕ
  pub good : Bool

unfoldable pub read_some : ℕ → Input → List ℕ × Input
read_some n is =
    let got = take n (drop is.position is.bytes) in
    if is.good
    then (
      got,
      record is {
        position = is.position + length got;
        good = leb (is.position + n) (length is.bytes);
      },
    )
    else ([], is)

unfoldable pub seek_from_start : ℕ → Input → Input
seek_from_start offset is =
    if is.good && leb offset (length is.bytes)
    then record is { position = offset }
    else record is { good = false }

unfoldable pub u16_at : List ℕ → ℕ → ℕ
u16_at bs i = get_or bs i 0 + get_or bs (i + 1) 0 * 2 ^ 8

unfoldable pub u32_at : List ℕ → ℕ → ℕ
u32_at bs i =
    bit_or
      (bit_or (bit_or (get_or bs i 0) (get_or bs (i + 1) 0 * 2 ^ 8)) (get_or bs (i + 2) 0 * 2 ^ 16))
      (get_or bs (i + 3) 0 * 2 ^ 24)

abbrev pub test : {A : Type 0} → Bool → ElfError → Result ElfError A → Result ElfError A
test true e k = throws e
test false e k = k

-- The tests of the header, whose fields lie at these offsets; `minWord` and `maxWord` bound the entry.
unfoldable pub check_header : List ℕ → ℕ → ℕ → Result ElfError ℕ
unfolding u16_at u32_at
check_header h min_word max_word =
    let e_entry = u32_at h 24 in
    test (ltb (length h) 52) uninitialised (
      test
        (not (get_or h 0 0 == 0x7f)
          || (not (get_or h 1 0 == b'E')
              || (not (get_or h 2 0 == b'L') || not (get_or h 3 0 == b'F'))))
        bad_magic
        (test (not (get_or h 4 0 == 1)) not_32_bit (
          test (not (get_or h 5 0 == 1)) not_little_endian (
            test (not (get_or h 6 0 == 1) || not (u32_at h 20 == 1)) bad_version (
              test (not (u16_at h 16 == 2)) not_executable (
                test (not (u16_at h 18 == 0xf3)) not_risc_v (
                  test
                    (not (e_entry % 4 == 0)
                      || (leb max_word (e_entry / 4) || ltb (e_entry / 4) min_word))
                    bad_entry (test (ltb 256 (u16_at h 44)) many_headers (ok e_entry)))))))))

-- `ProgHeader`, and the one at a place in what was read; what was not read is 0.
pub record ProgHeader : Type 0 where
  pub p_type : ℕ
  pub p_offset : ℕ
  pub p_vaddr : ℕ
  pub p_filesz : ℕ
  pub p_memsz : ℕ

unfoldable pub prog_header : List ℕ → ℕ → ProgHeader
unfolding u32_at
prog_header bs at = record {
  p_type = u32_at bs at;
  p_offset = u32_at bs (at + 4);
  p_vaddr = u32_at bs (at + 8);
  p_filesz = u32_at bs (at + 16);
  p_memsz = u32_at bs (at + 20);
}

abbrev pub Memory : Type 0
Memory = ℕ → Option ℕ

abbrev pub has : Memory → ℕ → Bool
has m word = elim (m word) [ none ↦ false | some v ↦ true ]

-- The word of a round: zero past the size in the file, else up to four bytes from the file.
unfoldable pub next_word : ProgHeader → ℕ → Input → ℕ × Input
unfolding read_some u32_at
next_word p i is =
    let (buf, after) = read_some (min (p.p_filesz - i) 4) is in
    if leb p.p_filesz i then (0, is) else (u32_at buf 0, after)

-- The loop over `i`; there is a round for each word of the segment and one more.
unfoldable pub load_words : ℕ → ProgHeader → ℕ → Input → Memory → Result ElfError (Input × Memory)
unfolding next_word
load_words zero p i is m = throws endless
load_words (suc fuel) p i is m =
    let word = add32 p.p_vaddr i / 4 in
    let (v, after) = next_word p i is in
    let rest = load_words fuel p (add32 i 4) after (update m word v) in
    if leb p.p_memsz i then ok (is, m) else test (has m word) overlapping rest

unfoldable pub load_segment : ProgHeader → ℕ → Input → Memory → Result ElfError (Input × Memory)
unfolding seek_from_start load_words
load_segment p min_word is m =
    if not (p.p_type == 1)
    then ok (is, m)
    else test (not (p.p_vaddr % 4 == 0)) not_aligned (
        test (ltb (p.p_vaddr / 4) min_word) before_region (
          test (ltb (add32 p.p_vaddr p.p_memsz) p.p_vaddr) wraps (
            test (ltb p.p_memsz p.p_filesz) file_larger
              (load_words (p.p_memsz / 4 + 2) p 0 (seek_from_start p.p_offset is) m))))

unfoldable pub load_segments :
    ℕ → List ℕ → ℕ → ℕ → Input → Memory → Result ElfError (Input × Memory)
unfolding load_segment prog_header
load_segments zero table at min_word is m = ok (is, m)
load_segments (suc count) table at min_word is m =
    load_segment (prog_header table at) min_word is m >>= λ (after, filled).
    load_segments count table (at + 32) min_word after filled

unfoldable pub load_elf : List ℕ → Memory → ℕ → ℕ → Result ElfError (ℕ × Memory)
unfolding read_some check_header seek_from_start u16_at u32_at load_segments
load_elf elf_bytes m min_word max_word =
    let (h, opened) = read_some 52 (record { bytes = elf_bytes; position = 0; good = true }) in
    check_header h min_word max_word >>= λ e_entry.
    let phnum = u16_at h 44 in
    let (table, is) = read_some (phnum * 32) (seek_from_start (u32_at h 28) opened) in
    load_segments phnum table 0 min_word is m >>= λ (_, filled). ok (e_entry, filled)
