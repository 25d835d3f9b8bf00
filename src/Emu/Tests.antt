-- ===== src/Emu/Tests.antt =====
-- The laws at concrete images; the identity stands for the permutation.
use zirgen.Prelude.{ℕ, ◌≡◌, refl, ap, sym, replicate, length, arith, [], some, none, List, ◌∷◌}
use zirgen.Prelude.Result.{Post, ok}
use zirgen.Emu.Image.{MemoryImage, page_size_words, set_digest_at, fixup_digests}
use zirgen.Emu.Image.Laws.{IsMerkle, fixup_digests-IsMerkle}
use zirgen.Emu.Image.Words.{from_words}
use zirgen.Emu.Image.Words.Shape.{IsPage, with_words}
use zirgen.Emu.Image.Words.Laws.{from_words-IsPage}
use zirgen.Emu.Paging.{paged_memory, load, store}
use zirgen.Emu.Paging.Laws.{IsSized, load-store}

same : List ℕ → List ℕ
same cells = cells

abbrev empty : MemoryImage
empty = record {
  zero_page = replicate page_size_words 0;
  zero_digests = [];
  digests = λ _. none;
  pages = λ _. none;
}

-- Two leaves are known, and not their parent.
abbrev leaves : MemoryImage
leaves = set_digest_at 3 (1 ∷ []) (set_digest_at 2 (2 ∷ []) empty)

fixup_digests-IsMerkle_example : IsMerkle same (fixup_digests same 2 leaves)
fixup_digests-IsMerkle_example =
    fixup_digests-IsMerkle same 2 leaves (omega arith) (λ n h ne a b p q. ground (arith, p, ne))

abbrev full : MemoryImage
full = record empty { pages = λ _. some (replicate page_size_words 0) }

full-IsSized : IsSized (paged_memory full)
unfolding paged_memory
full-IsSized = record {
  zero_page = refl;
  pages = λ p w e.
      let same_page : ◌≡◌ {A = List ℕ} (replicate page_size_words 0) w = cc in
      ap (λ (v : List ℕ). length v) (sym same_page);
  cache = λ p w e. cc;
}

load-store_example : Post (λ s'. load 7 s' ≡ ok (5, s')) (λ e. Unit) (store 7 5 (paged_memory full))
load-store_example = load-store 7 5 (paged_memory full) full-IsSized

-- Two words in page 0 and one in page 2.
abbrev three_words : List (ℕ × ℕ)
three_words = (3, 5) ∷ (255, 6) ∷ (514, 7) ∷ []

from_words-IsPage_example :
    IsPage (with_words three_words (λ _. none)) 2 ((from_words same three_words).pages 2)
from_words-IsPage_example = from_words-IsPage same three_words 2 (omega arith)
