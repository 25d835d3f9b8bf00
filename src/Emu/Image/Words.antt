-- ===== src/Emu/Image/Words.antt =====
-- `MemoryImage::fromWords` of image.cpp. The `std::map` is the list of its entries in the order of
-- their keys.
mod Pages
pub mod Shape
pub mod Laws
use zirgen.Prelude.{
  ℕ, ◌/◌, ◌%◌, ◌==◌, if◌then◌else◌, Option, none, some, List, [], ◌∷◌, set, replicate,
}
use zirgen.Emu.Image.{MemoryImage, Page, page_size_words, set_page, zeros}

-- `ret`, `curPageID` and `curPage`, which is null at first.
pub record Filling : Type 0 where
  pub image : MemoryImage
  pub cur_page_id : ℕ
  pub cur_page : Option Page

-- `(*curPage)[...] = kvp.second`; without a page there is nothing to write to.
unfoldable pub put_word : ℕ → ℕ → Filling → Filling
put_word addr v f = elim f.cur_page [
  | none ↦ f
  | some words ↦ record f { cur_page = some (set words (addr % page_size_words) v) }
]

module _ (sponge : List ℕ → List ℕ) where
  -- `if (curPage) { ret.setPage(curPageID, curPage); }`
  unfoldable pub flush : Filling → MemoryImage
  flush f = elim f.cur_page [
    | none ↦ f.image
    | some words ↦ set_page sponge f.cur_page_id words f.image
  ]

  unfoldable pub open_page : ℕ → Filling → Filling
  unfolding flush
  open_page page_id f = if page_id == f.cur_page_id then f else record {
    image = flush f;
    cur_page_id = page_id;
    cur_page = some (replicate page_size_words 0);
  }

  unfoldable pub fill_words : List (ℕ × ℕ) → Filling → Filling
  unfolding open_page put_word
  fill_words [] f = f
  fill_words ((addr, v) ∷ rest) f =
      fill_words rest (put_word addr v (open_page (addr / page_size_words) f))

  unfoldable pub from_words : List (ℕ × ℕ) → MemoryImage
  unfolding flush fill_words
  from_words words = flush (
      fill_words words (record { image = zeros sponge; cur_page_id = 0xffffffff; cur_page = none }))
