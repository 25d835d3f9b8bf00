-- ===== src/Emu/Image.antt =====
-- `MemoryImage` of image.h and image.cpp: the pages of the memory and the Merkle tree above them.
-- A `std::unordered_map` is the function of what it holds. Node 1 is the root, and the children of
-- node `n` are 2n and 2n + 1; the leaf of page `p` is MEMORY_SIZE_PAGES + p.
pub mod Laws
pub mod Words
use zirgen.Prelude.{
  ℕ, zero, suc, ◌+◌, ◌-◌, ◌*◌, ◌/◌, ◌^◌, ◌==◌, leb, ltb, ◌&&◌, not, if◌then◌else◌, Bool, true,
  false, Option, none, some, List, [], ◌∷◌, get_or, set, each, replicate, bit_and,
}
use zirgen.Prelude.Result.{Result, ok, throws}

abbrev pub page_size_words : ℕ
page_size_words = 256

abbrev pub memory_size_pages : ℕ
memory_size_pages = 2 ^ 22

abbrev pub merkle_tree_depth : ℕ
merkle_tree_depth = 22

-- `while ((1 << (po2 + 1)) <= in)`, with `fuel` rounds.
unfoldable log2_from : ℕ → ℕ → ℕ → ℕ
log2_from zero n po2 = po2
log2_from (suc fuel) n po2 =
    let rest = log2_from fuel n (suc po2) in if leb (2 ^ (po2 + 1)) n then rest else po2

-- A `size_t` is below 2 ^ 64.
unfoldable pub log2_floor : ℕ → ℕ
unfolding log2_from
log2_floor n = log2_from 64 n 0

abbrev pub Digest : Type 0
Digest = List ℕ

abbrev pub Page : Type 0
Page = List ℕ

unfoldable pub same_digest : Digest → Digest → Bool
same_digest [] [] = true
same_digest [] (y ∷ ys) = false
same_digest (x ∷ xs) [] = false
same_digest (x ∷ xs) (y ∷ ys) = x == y && same_digest xs ys

pub data Error : Type 0 where
  unavailable_page unavailable_digest invalid_word : Error

pub record MemoryImage : Type 0 where
  pub zero_page : Page
  pub zero_digests : List Digest
  pub digests : ℕ → Option Digest
  pub pages : ℕ → Option Page

abbrev pub update {ℓ} : {A : Type ℓ} → (ℕ → Option A) → ℕ → A → ℕ → Option A
update m k v j = if j == k then some v else m j

-- `count`
abbrev pub known {ℓ} : {A : Type ℓ} → Option A → Bool
known none = false
known (some a) = true

abbrev pub set_digest_at : ℕ → Digest → MemoryImage → MemoryImage
set_digest_at idx d m = record m { digests = update m.digests idx d }

-- `sponge` is `poseidonSponge`, the permutation of the 24 cells.
module _ (sponge : List ℕ → List ℕ) where
  -- `out.words[i] = cells[i]`
  abbrev first_words : List ℕ → Digest
  first_words cells = each 0 8 (λ i out. set out i (get_or cells i 0)) (replicate 8 0)

  unfoldable pub hash_page : Page → Digest
  hash_page data_words = first_words (
      each 0 (page_size_words / 8)
        (λ i cells. sponge (
          each 0 8
            (λ j row.
              let w = get_or data_words (i * 8 + j) 0 in
              set (set row (2 * j) (bit_and w 0xffff)) (2 * j + 1) (w / 2 ^ 16))
            cells))
        (replicate 24 0))

  unfoldable pub hash_pair : Digest → Digest → Digest
  hash_pair lhs rhs = first_words (
      sponge (
        each 0 8 (λ i cells. set (set cells i (get_or rhs i 0)) (8 + i) (get_or lhs i 0))
          (replicate 24 0)))

  -- `for (depth = MERKLE_TREE_DEPTH + 1; depth-- > 0;)`: the deepest digest first.
  unfoldable pub zero_digests_from : ℕ → Digest → List Digest → List Digest
  unfolding hash_pair
  zero_digests_from zero cur table = table
  zero_digests_from (suc depth) cur table =
      zero_digests_from depth (hash_pair cur cur) (set table depth cur)

  -- The constructor, by `initZeros`.
  unfoldable pub init_zeros : MemoryImage
  unfolding hash_page zero_digests_from
  init_zeros =
      let zero_page = replicate page_size_words 0 in
      record {
        zero_page = zero_page;
        zero_digests =
            zero_digests_from (merkle_tree_depth + 1) (hash_page zero_page)
              (replicate (merkle_tree_depth + 1) []);
        digests = λ _. none;
        pages = λ _. none;
      }

  unfoldable pub zeros : MemoryImage
  unfolding init_zeros
  zeros = set_digest_at 1 (get_or init_zeros.zero_digests 0 []) init_zeros

  abbrev both : Option Digest → Option Digest → Option Digest
  both (some left) (some right) = some (hash_pair left right)
  both (some left) none = none
  both none right = none

  -- `while (idx != 1)`, which halves `idx`, so that `idx` rounds are enough.
  unfoldable pub fixup : ℕ → ℕ → MemoryImage → MemoryImage
  fixup zero idx m = m
  fixup (suc fuel) idx m =
      let up = idx / 2 in
      if idx == 1 then m else elim (both (m.digests (2 * up)) (m.digests (2 * up + 1))) [
        | none ↦ m
        | some d ↦ fixup fuel up (set_digest_at up d m)
      ]

  unfoldable pub fixup_digests : ℕ → MemoryImage → MemoryImage
  unfolding fixup
  fixup_digests idx m = fixup idx idx m

-- `while (digests.count(idx) == 0 && idx > 0)`, with the depth of `idx`; then the comparison.
unfoldable pub is_zero_from : ℕ → ℕ → ℕ → MemoryImage → Bool
unfolding same_digest
is_zero_from zero idx depth m = false
is_zero_from (suc fuel) idx depth m =
    let up = is_zero_from fuel (idx / 2) (depth - 1) m in
    elim (m.digests idx) [
      | some d ↦ if idx == 0 then false else same_digest d (get_or m.zero_digests depth [])
      | none ↦ if idx == 0 then false else up
    ]

unfoldable pub is_zero : ℕ → MemoryImage → Bool
unfolding is_zero_from log2_floor
is_zero idx m = is_zero_from (suc idx) idx (log2_floor idx) m

-- `while (digests.count(idx) == 0)`
unfoldable pub expand_from : ℕ → ℕ → ℕ → MemoryImage → MemoryImage
expand_from zero idx depth m = m
expand_from (suc fuel) idx depth m =
    let new_idx = idx / 2 in
    let d = get_or m.zero_digests depth [] in
    let rest =
      expand_from fuel new_idx (depth - 1)
        (set_digest_at (2 * new_idx + 1) d (set_digest_at (2 * new_idx) d m)) in
    if known (m.digests idx) then m else rest

unfoldable pub expand_zero : ℕ → MemoryImage → MemoryImage
unfolding expand_from log2_floor
expand_zero idx m = expand_from (suc idx) idx (log2_floor idx) m

unfoldable pub expand_if_zero : ℕ → MemoryImage → Bool × MemoryImage
unfolding is_zero expand_zero
expand_if_zero idx m = if is_zero idx m then (true, expand_zero idx m) else (false, m)

unfoldable pub get_page : ℕ → MemoryImage → Result Error (Page × MemoryImage)
unfolding expand_if_zero
get_page page m =
    let (expanded, next) = expand_if_zero (memory_size_pages + page) m in
    elim (m.pages page) [
      | some words ↦ ok (words, m)
      | none ↦
          if expanded
          then ok (m.zero_page, record next { pages = update next.pages page m.zero_page })
          else throws unavailable_page
    ]

unfoldable pub get_digest : ℕ → MemoryImage → Result Error (Digest × MemoryImage)
unfolding expand_if_zero
get_digest idx m =
    let next = (expand_if_zero idx m).1 in
    elim (next.digests idx) [ some d ↦ ok (d, next) | none ↦ throws unavailable_digest ]

module _ (sponge : List ℕ → List ℕ) where
  unfoldable pub set_digest : ℕ → Digest → MemoryImage → MemoryImage
  unfolding expand_if_zero fixup_digests
  set_digest idx d m = fixup_digests sponge idx (set_digest_at idx d (expand_if_zero idx m).1)

  unfoldable pub set_page : ℕ → Page → MemoryImage → MemoryImage
  unfolding expand_if_zero fixup_digests hash_page
  set_page page words m =
      let idx = memory_size_pages + page in
      let next = (expand_if_zero idx m).1 in
      fixup_digests sponge idx (
        set_digest_at idx (hash_page sponge words)
          (record next { pages = update next.pages page words }))
