-- ===== src/Elf/Laws.antt =====
-- What `loadElf` leaves of memory.
use zirgen.Prelude.{
  ℕ, zero, suc, ◌+◌, ◌*◌, ◌/◌, ◌%◌, ◌^◌, ◌≤◌, ◌<◌, ◌≡◌, ◌⊎◌, inl, inr, refl, ap, sym, ◌∙◌, ==_iff,
  not, Bool, true, false, Bool-cases, Option, none, some, ltb, leb, ◌==◌, arith,
}
use zirgen.Prelude.Result.{Result, Post, Post-map}
use zirgen.Word.{add32}
use zirgen.Emu.Image.{update}
use zirgen.Elf.{
  ElfError, endless, overlapping, not_aligned, before_region, wraps, file_larger, Input, Memory,
  ProgHeader, has, test, next_word, load_words, load_segment, seek_from_start,
}

-- The words of `before` stay, and those that are new stand at `least` or above.
pub record Extends (least : ℕ) (before after : Memory) : Type 0 where
  pub kept : (j v : ℕ) → before j ≡ some v → after j ≡ some v
  pub added : (j v : ℕ) → after j ≡ some v → (before j ≡ some v) ⊎ (least ≤ j)

-- No loop is stopped before its end.
abbrev pub IsThrown : ElfError → Type 0
IsThrown endless = ⊥
IsThrown e = Unit

impossible : true ≡ false → ⊥
impossible e = cc

not_free :
    {A : Type 0} {v : A} (o : Option A)
    → elim o [ none ↦ false | some w ↦ true ] ≡ false
    → o ≡ some v
    → ⊥
not_free none e h = cc
not_free (some w) e h = cc

pub Extends-refl : (least : ℕ) (m : Memory) → Extends least m m
Extends-refl least m = record { kept = λ j v h. h; added = λ j v h. inl h }

Extends-update :
    (least word v : ℕ) (m after : Memory)
    → has m word ≡ false
    → least ≤ word
    → Extends least (update m word v) after
    → Extends least m after
Extends-update least word v m after free above e = record {
  kept = λ j w h. elim (Bool-cases (j == word)) [
    | inl s ↦ absurd (not_free (m word) free (ap m (sym ((==_iff j word).0 s)) ∙ h))
    | inr s ↦ e.kept j w (rw s h)
  ];
  added = λ j w h. elim (e.added j w h) [
    | inl old ↦ elim (Bool-cases (j == word)) [
      | inl s ↦ inr (ground (arith, (==_iff j word).0 s, above))
      | inr s ↦ inl (rw s at old)
    ]
    | inr new ↦ inr new
  ];
}

pub test-Post :
    {A : Type 0} (P : A → Type 0) (cond : Bool) (e : ElfError) (k : Result ElfError A)
    → IsThrown e
    → (cond ≡ false → Post P IsThrown k)
    → Post P IsThrown (test cond e k)
test-Post P true e k t h = t
test-Post P false e k t h = h refl

-- Where the loop stands: it has rounds enough and its first word is in memory, or `i` has wrapped
-- to 0, which the test of the first word finds.
data Progress (fuel : ℕ) (p : ProgHeader) (i : ℕ) (m : Memory) : Type 0 where
  running :
      p.p_memsz + 4 < i + 4 * fuel
      → i ≤ p.p_memsz + 4
      → (i ≡ 0) ⊎ (has m (p.p_vaddr / 4) ≡ true)
      → Progress fuel p i m
  wrapped : i ≡ 0 → has m (p.p_vaddr / 4) ≡ true → 0 < fuel → Progress fuel p i m

has-update :
    (m : Memory) (j word v : ℕ) → (j ≡ word) ⊎ (has m j ≡ true) → has (update m word v) j ≡ true
has-update m j word v h = elim (Bool-cases (j == word)) [
  | inl e ↦ rw (has, update, e) refl
  | inr e ↦ elim h [
    | inl same ↦ absurd (ground (arith, e, same))
    | inr old ↦ rw (has, update, e) old
  ]
]

Progress-step :
    (fuel : ℕ) (p : ProgHeader) (i v : ℕ) (m : Memory)
    → p.p_vaddr + p.p_memsz < 2 ^ 32
    → i % 4 ≡ 0
    → i < p.p_memsz
    → has m (add32 p.p_vaddr i / 4) ≡ false
    → Progress (suc fuel) p i m
    → Progress fuel p (add32 i 4) (update m (add32 p.p_vaddr i / 4) v)
Progress-step fuel p i v m fits aligned below free (wrapped start old rounds) =
    absurd (impossible (sym old ∙ ap (has m) (omega arith) ∙ free))
Progress-step fuel p i v m fits aligned below free (running enough near start) =
    let present =
      has-update m (p.p_vaddr / 4) (add32 p.p_vaddr i / 4) v
        (elim start [ inl e ↦ inl (omega arith) | inr old ↦ inr old ]) in
    elim (Bool-cases (ltb (i + 4) (2 ^ 32))) [
      | inl e ↦ running (ground arith) (ground arith) (inr present)
      | inr e ↦ wrapped (ground arith) present (ground arith)
    ]

-- The memory of a result with an input.
abbrev pub Filled : ℕ → Memory → Input × Memory → Type 0
Filled least m (is, after) = Extends least m after

load_words-Extends :
    (fuel : ℕ) (p : ProgHeader) (i least : ℕ) (is : Input) (m : Memory)
    → p.p_vaddr + p.p_memsz < 2 ^ 32
    → least ≤ p.p_vaddr / 4
    → i % 4 ≡ 0
    → Progress fuel p i m
    → Post (Filled least m) IsThrown (load_words fuel p i is m)
unfolding load_words
load_words-Extends zero p i least is m fits above aligned (running enough near start) =
    absurd (omega arith)
load_words-Extends zero p i least is m fits above aligned (wrapped start old rounds) =
    absurd (omega arith)
load_words-Extends (suc fuel) p i least is m fits above aligned progress =
    let word = add32 p.p_vaddr i / 4 in
    let (v, after) = next_word p i is in
    let filled = update m word v in
    let next = load_words fuel p (add32 i 4) after filled in
    elim (Bool-cases (leb p.p_memsz i)) [
      | inl e ↦ rw e (Extends-refl least m)
      | inr e ↦
          let below : least ≤ word = ground (arith, e, fits, above) in
          rw e (
            test-Post (Filled least m) (has m word) overlapping next tt λ free.
              let step =
                Progress-step fuel p i v m fits aligned (ground (arith, e)) free progress in
              Post-map {P = Filled least filled} (Filled least m) IsThrown next
                (load_words-Extends fuel p (add32 i 4) least after filled fits above (omega arith)
                  step)
                λ (is', m') x. Extends-update least word v m m' free below x)
    ]

pub load_segment-Extends :
    (p : ProgHeader) (least : ℕ) (is : Input) (m : Memory)
    → p.p_vaddr < 2 ^ 32
    → p.p_memsz < 2 ^ 32
    → Post (Filled least m) IsThrown (load_segment p least is m)
unfolding load_segment
load_segment-Extends p least is m v_word m_word =
    let words = load_words (p.p_memsz / 4 + 2) p 0 (seek_from_start p.p_offset is) m in
    let sized = test (ltb p.p_memsz p.p_filesz) file_larger words in
    let ended = test (ltb (add32 p.p_vaddr p.p_memsz) p.p_vaddr) wraps sized in
    let placed = test (ltb (p.p_vaddr / 4) least) before_region ended in
    elim (Bool-cases (not (p.p_type == 1))) [
      | inl e ↦ rw e (Extends-refl least m)
      | inr e ↦ rw e (
          test-Post (Filled least m) (not (p.p_vaddr % 4 == 0)) not_aligned placed tt λ aligned.
            test-Post (Filled least m) (ltb (p.p_vaddr / 4) least) before_region ended tt λ above.
              test-Post (Filled least m) (ltb (add32 p.p_vaddr p.p_memsz) p.p_vaddr) wraps sized tt
                λ inside.
                  test-Post (Filled least m) (ltb p.p_memsz p.p_filesz) file_larger words tt
                    λ smaller.
                      load_words-Extends (p.p_memsz / 4 + 2) p 0 least
                        (seek_from_start p.p_offset is) m (ground (arith, inside, v_word, m_word))
                        (ground (arith, above)) refl
                        (running (omega arith) (omega arith) (inl refl)))
    ]
