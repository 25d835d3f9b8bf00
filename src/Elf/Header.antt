-- ===== src/Elf/Header.antt =====
-- What the tests of the header leave: an entry at a word of the region.
use zirgen.Prelude.{
  ℕ, ◌/◌, ◌%◌, ◌≤◌, ◌<◌, ◌≡◌, refl, not, ◌||◌, ltb, leb, ◌==◌, List, length, get_or, arith,
}
use zirgen.Prelude.Result.{Result, ok, Post}
use zirgen.Elf.{
  ElfError, uninitialised, bad_magic, not_32_bit, not_little_endian, bad_version, not_executable,
  not_risc_v, bad_entry, many_headers, test, check_header, u32_at, u16_at,
}
use zirgen.Elf.Laws.{IsThrown, test-Post}

abbrev pub IsEntry : ℕ → ℕ → ℕ → Type 0
IsEntry min_word max_word e = (e % 4 ≡ 0) × (min_word ≤ e / 4) × (e / 4 < max_word)

-- `e_entry` in the bytes of a header.
abbrev pub e_entry : List ℕ → ℕ
e_entry bytes = u32_at bytes 24

abbrev pub IsHeaderEntry : List ℕ → ℕ → ℕ → ℕ → Type 0
IsHeaderEntry h min_word max_word e = (e ≡ e_entry h) × IsEntry min_word max_word e

pub check_header-IsEntry :
    (h : List ℕ) (min_word max_word : ℕ)
    → Post (IsHeaderEntry h min_word max_word) IsThrown (check_header h min_word max_word)
unfolding check_header
check_header-IsEntry h min_word max_word =
    let e = u32_at h 24 in
    let accepted : Result ElfError ℕ = ok e in
    let after_bad_entry = test (ltb 256 (u16_at h 44)) many_headers accepted in
    let after_not_risc_v =
      test (not (e % 4 == 0) || (leb max_word (e / 4) || ltb (e / 4) min_word)) bad_entry
        after_bad_entry in
    let after_not_executable = test (not (u16_at h 18 == 0xf3)) not_risc_v after_not_risc_v in
    let after_bad_version = test (not (u16_at h 16 == 2)) not_executable after_not_executable in
    let after_not_little_endian =
      test (not (get_or h 6 0 == 1) || not (u32_at h 20 == 1)) bad_version after_bad_version in
    let after_not_32_bit =
      test (not (get_or h 5 0 == 1)) not_little_endian after_not_little_endian in
    let after_bad_magic = test (not (get_or h 4 0 == 1)) not_32_bit after_not_32_bit in
    let after_uninitialised =
      test
        (not (get_or h 0 0 == 0x7f)
          || (not (get_or h 1 0 == b'E')
              || (not (get_or h 2 0 == b'L') || not (get_or h 3 0 == b'F'))))
        bad_magic after_bad_magic in
    (test-Post (IsHeaderEntry h min_word max_word) (ltb (length h) 52) uninitialised
      after_uninitialised tt
      λ _.
        (test-Post (IsHeaderEntry h min_word max_word)
          (not (get_or h 0 0 == 0x7f)
            || (not (get_or h 1 0 == b'E')
                || (not (get_or h 2 0 == b'L') || not (get_or h 3 0 == b'F'))))
          bad_magic after_bad_magic tt
          λ _.
            (test-Post (IsHeaderEntry h min_word max_word) (not (get_or h 4 0 == 1)) not_32_bit
              after_not_32_bit tt
              λ _.
                (test-Post (IsHeaderEntry h min_word max_word) (not (get_or h 5 0 == 1))
                  not_little_endian after_not_little_endian tt
                  λ _.
                    (test-Post (IsHeaderEntry h min_word max_word)
                      (not (get_or h 6 0 == 1) || not (u32_at h 20 == 1)) bad_version
                      after_bad_version tt
                      λ _.
                        (test-Post (IsHeaderEntry h min_word max_word) (not (u16_at h 16 == 2))
                          not_executable after_not_executable tt
                          λ _.
                            (test-Post (IsHeaderEntry h min_word max_word)
                              (not (u16_at h 18 == 0xf3)) not_risc_v after_not_risc_v tt
                              λ _.
                                (test-Post (IsHeaderEntry h min_word max_word)
                                  (not (e % 4 == 0)
                                    || (leb max_word (e / 4) || ltb (e / 4) min_word))
                                  bad_entry after_bad_entry tt
                                  λ inside.
                                    (test-Post (IsHeaderEntry h min_word max_word)
                                      (ltb 256 (u16_at h 44)) many_headers accepted tt
                                      λ _. (refl, ground (arith, inside)))))))))))
