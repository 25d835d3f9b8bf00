-- ===== src/Elf/Load.antt =====
-- What `loadElf` returns: the entry point, and the memory with the segments added.
use mathlib.Core.Path.{subst}
use zirgen.Prelude.{
  get_or, [], ◌∷◌, refl, sym, ◌∙◌, true, ℕ, zero, suc, ◌+◌, ◌*◌, ◌^◌, ◌<◌, ◌≡◌, inl, inr, List,
  arith,
}
use zirgen.Prelude.Result.{Post, Post-bind, Post-map}
use zirgen.R1cs.Stream.{take, drop}
use zirgen.R1cs.Stream.Parses.{All}
use zirgen.R1cs.Stream.Ensures.{IsByte, All-take, All-drop, get_or-IsByte, byte_byte_joined-lt}
use zirgen.Prelude.{Bool-cases}
use zirgen.Elf.{
  Input, Memory, load_segment, load_segments, load_elf, check_header, read_some, seek_from_start,
  prog_header, u32_at, u16_at,
}
use zirgen.Elf.Laws.{Extends, Extends-refl, Filled, IsThrown, load_segment-Extends}
use zirgen.Elf.Header.{e_entry, IsHeaderEntry, IsEntry, check_header-IsEntry}

Extends-trans :
    (least : ℕ) (a b c : Memory) → Extends least a b → Extends least b c → Extends least a c
Extends-trans least a b c e f = record {
  kept = λ j v h. f.kept j v (e.kept j v h);
  added = λ j v h. elim (f.added j v h) [ inl old ↦ e.added j v old | inr new ↦ inr new ];
}

u32_at-lt : (bs : List ℕ) (i : ℕ) → All IsByte bs → u32_at bs i < 2 ^ 32
unfolding u32_at
u32_at-lt bs i h =
    byte_byte_joined-lt 32 24 _ bs (i + 3) h (λ b p. omega arith)
      (byte_byte_joined-lt 32 16 _ bs (i + 2) h (λ b p. omega arith)
        (byte_byte_joined-lt 32 8 _ bs (i + 1) h (λ b p. omega arith)
          (omega (arith, get_or-IsByte bs i h))))

read_some-All : (n : ℕ) (is : Input) → All IsByte is.bytes → All IsByte (read_some n is).0
unfolding read_some
read_some-All n is h = elim (Bool-cases is.good) [
  | inl e ↦ rw e (All-take n (drop is.position is.bytes) (All-drop is.position is.bytes h))
  | inr e ↦ rw e tt
]

read_some-bytes : (n : ℕ) (is : Input) → (read_some n is).1.bytes ≡ is.bytes
unfolding read_some
read_some-bytes n is = ground arith

seek_from_start-bytes : (k : ℕ) (is : Input) → (seek_from_start k is).bytes ≡ is.bytes
unfolding seek_from_start
seek_from_start-bytes k is = ground arith

load_segments-Extends :
    (count : ℕ) (table : List ℕ) (at least : ℕ) (is : Input) (m : Memory)
    → All IsByte table
    → Post (Filled least m) IsThrown (load_segments count table at least is m)
unfolding load_segments prog_header
load_segments-Extends zero table at least is m h = Extends-refl least m
load_segments-Extends (suc count) table at least is m h =
    let p = prog_header table at in
    Post-bind {P = Filled least m} (Filled least m) IsThrown (load_segment p least is m) _
      (load_segment-Extends p least is m (u32_at-lt table (at + 8) h) (u32_at-lt table (at + 20) h))
      (λ (after, filled) first.
        Post-map {P = Filled least filled} (Filled least m) IsThrown
          (load_segments count table (at + 32) least after filled)
          (load_segments-Extends count table (at + 32) least after filled h)
          (λ (end, m') rest. Extends-trans least m filled m' first rest))

get_or-take : (n i : ℕ) (bs : List ℕ) → i < n → get_or (take n bs) i 0 ≡ get_or bs i 0
get_or-take zero i bs h = absurd (omega arith)
get_or-take (suc n) i [] h = refl
get_or-take (suc n) zero (b ∷ bs) h = refl
get_or-take (suc n) (suc i) (b ∷ bs) h = get_or-take n i bs (omega arith)

-- The entry point lies in what is read of the header.
e_entry-read_some :
    (bs : List ℕ)
    → e_entry (read_some 52 (record { bytes = bs; position = 0; good = true })).0 ≡ e_entry bs
unfolding read_some u32_at
e_entry-read_some bs =
    rw
      (
        get_or-take 52 24 bs (omega arith),
        get_or-take 52 25 bs (omega arith),
        get_or-take 52 26 bs (omega arith),
        get_or-take 52 27 bs (omega arith),
      )
      refl

-- What `loadElf` returns, or throws, from a file, the memory and the bounds.
abbrev pub IsLoaded : List ℕ → ℕ → ℕ → Memory → ℕ × Memory → Type 0
IsLoaded elf_bytes min_word max_word m (entry, after) =
    (entry ≡ e_entry elf_bytes) × IsEntry min_word max_word entry × Extends min_word m after

-- For a file of bytes, the loader returns, or throws an exception other than `endless`. When it
-- returns, the entry point is that of the header, is aligned and its word lies from `minWord` on and below `maxWord`, every
-- word that was in memory is unchanged, and every word that is new lies at `minWord` or above.
pub load_elf-IsLoaded :
    (elf_bytes : List ℕ) (m : Memory) (min_word max_word : ℕ)
    → All IsByte elf_bytes
    → Post
        (IsLoaded elf_bytes min_word max_word m)
        IsThrown
        (load_elf elf_bytes m min_word max_word)
unfolding load_elf
load_elf-IsLoaded elf_bytes m min_word max_word bytes =
    let start : Input = record { bytes = elf_bytes; position = 0; good = true } in
    let (h, opened) = read_some 52 start in
    let sought = seek_from_start (u32_at h 28) opened in
    let (table, is) = read_some (u16_at h 44 * 32) sought in
    let same = seek_from_start-bytes (u32_at h 28) opened ∙ read_some-bytes 52 start in
    let read = read_some-All (u16_at h 44 * 32) sought (subst (All IsByte) (sym same) bytes) in
    Post-bind {P = IsHeaderEntry h min_word max_word} (IsLoaded elf_bytes min_word max_word m)
      IsThrown (check_header h min_word max_word) _ (check_header-IsEntry h min_word max_word)
      λ entry (here, placed).
        Post-bind {P = Filled min_word m} (IsLoaded elf_bytes min_word max_word m) IsThrown
          (load_segments (u16_at h 44) table 0 min_word is m) _
          (load_segments-Extends (u16_at h 44) table 0 min_word is m read)
          (λ (end, filled) extended. (here ∙ e_entry-read_some elf_bytes, placed, extended))
