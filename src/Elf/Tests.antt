-- ===== src/Elf/Tests.antt =====
-- A small program, loaded, and an instance of the theorem about the loader.
use zirgen.Prelude.{ℕ, ◌≡◌, refl, Option, none, some, List, [], ◌∷◌, ◌++◌, map, arith}
use zirgen.Prelude.Result.{Result, ok, throws, Post}
use zirgen.R1cs.Stream.Parses.{All}
use zirgen.R1cs.Stream.Ensures.{IsByte}
use zirgen.Elf.{
  ElfError, bad_entry, overlapping, Memory, read_some, seek_from_start, u16_at, u32_at,
  check_header, prog_header, next_word, load_words, load_segment, load_segments, load_elf,
}
use zirgen.Elf.Laws.{IsThrown}
use zirgen.Vm.Constants.{kernel_start_word, mepc_word, suspend_pc_word, suspend_mode_word}
use zirgen.Elf.Start.{load_with_kernel, load_raw, IsStarted, load_with_kernel-IsStarted}
use zirgen.Elf.Load.{IsLoaded, load_elf-IsLoaded}

abbrev zeros : List ℕ
zeros = 0 ∷ 0 ∷ 0 ∷ []

-- The entry point is where the segment starts.
abbrev header : List ℕ → List ℕ
header address =
    0x7f ∷ b'E' ∷ b'L' ∷ b'F' ∷ 1 ∷ 1 ∷ 1 ∷ zeros
    ++ zeros
    ++ zeros
    ++ 2 ∷ 0 ∷ 0xf3 ∷ 0 ∷ 1 ∷ zeros
    ++ address
    ++ 52 ∷ zeros
    ++ 0 ∷ zeros
    ++ 0 ∷ zeros
    ++ 52 ∷ 0 ∷ 32 ∷ 0 ∷ 1 ∷ 0 ∷ zeros
    ++ zeros

-- Six bytes for three words.
abbrev program_at : List ℕ → List ℕ
program_at address =
    header address
    ++ 1 ∷ zeros
    ++ 84 ∷ zeros
    ++ address
    ++ address
    ++ 6 ∷ zeros
    ++ 12 ∷ zeros
    ++ 0 ∷ zeros
    ++ 0 ∷ zeros
    ++ 1 ∷ 2 ∷ 3 ∷ 4 ∷ 5 ∷ 6 ∷ []

abbrev program : List ℕ
program = program_at (16 ∷ zeros)

-- From 0xbffffff8 and from 0xc0010000 on.
abbrev user_program : List ℕ
user_program = program_at (0xf8 ∷ 0xff ∷ 0xff ∷ 0xbf ∷ [])

abbrev kernel_program : List ℕ
kernel_program = program_at (0 ∷ 0 ∷ 1 ∷ 0xc0 ∷ [])

abbrev empty : Memory
empty word = none

abbrev words : Result ElfError (ℕ × Memory) → Result ElfError (ℕ × List (Option ℕ))
words (ok (entry, m)) = ok (entry, map m (3 ∷ 4 ∷ 5 ∷ 6 ∷ 7 ∷ []))
words (throws e) = throws e

-- `maxWord` is 5 and the segment goes on to word 6: the bound is for the entry point alone.
past_the_end :
    words (load_elf program empty 4 5)
    ≡ ok (16, none ∷ some 0x04030201 ∷ some 0x0605 ∷ some 0 ∷ none ∷ [])
unfolding load_elf read_some seek_from_start u16_at u32_at check_header prog_header next_word
    load_words load_segment load_segments
past_the_end = refl

-- The words of an earlier program are not overwritten.
taken : words (load_elf program (λ word. some 7) 4 16) ≡ throws overlapping
unfolding load_elf read_some seek_from_start u16_at u32_at check_header prog_header next_word
    load_words load_segment load_segments
taken = refl

below : words (load_elf program empty 5 16) ≡ throws bad_entry
unfolding load_elf read_some seek_from_start u16_at u32_at check_header prog_header next_word
    load_words load_segment load_segments
below = refl

program-bytes : All IsByte program
program-bytes = omega arith

load_elf-IsLoaded_example :
    Post (IsLoaded program 4 16 empty) IsThrown (load_elf program empty 4 16)
load_elf-IsLoaded_example = load_elf-IsLoaded program empty 4 16 program-bytes

abbrev started : Result ElfError Memory → Result ElfError (List (Option ℕ))
started (ok m) =
    ok (
      map m (kernel_start_word ∷ 0x30004000 ∷ mepc_word ∷ suspend_pc_word ∷ suspend_mode_word ∷ []))
started (throws e) = throws e

-- The last word of the user's segment is the first of the kernel's region.
user_word_in_kernel :
    started (load_with_kernel kernel_program user_program empty)
    ≡ ok (some 0 ∷ some 0x04030201 ∷ some 0xbffffff4 ∷ some 0xc0010000 ∷ some 1 ∷ [])
unfolding load_with_kernel load_elf read_some seek_from_start u16_at u32_at check_header prog_header
    next_word load_words load_segment load_segments
user_word_in_kernel = refl

raw_program :
    started (load_raw kernel_program empty)
    ≡ ok (none ∷ some 0x04030201 ∷ none ∷ some 0xc0010000 ∷ some 1 ∷ [])
unfolding load_raw load_elf read_some seek_from_start u16_at u32_at check_header prog_header
    next_word load_words load_segment load_segments
raw_program = refl

load_with_kernel-IsStarted_example :
    Post
      (IsStarted kernel_program user_program)
      IsThrown
      (load_with_kernel kernel_program user_program empty)
load_with_kernel-IsStarted_example =
    load_with_kernel-IsStarted kernel_program user_program empty (omega arith) (omega arith)
