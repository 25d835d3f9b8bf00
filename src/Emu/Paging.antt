-- ===== src/Emu/Paging.antt =====
-- `PagedMemory` of paging.h and paging.cpp: the pages that a segment has touched, and what their
-- paging costs in cycles.
pub mod Laws
use zirgen.Prelude.{
  ℕ, zero, suc, ◌+◌, ◌*◌, ◌/◌, ◌%◌, ◌^◌, ltb, leb, ◌==◌, ◌&&◌, if◌then◌else◌, Bool, true, false,
  Option, none, some, get_or, set, replicate,
}
use zirgen.Prelude.Result.{Result, ok, throws, ◌>>=◌}
use zirgen.Emu.Image.{
  MemoryImage, Page, Error, invalid_word, get_page, page_size_words, memory_size_pages, update,
}

abbrev pub cycle_cost_page : ℕ
cycle_cost_page = 1 + 10 * (page_size_words / 8) + 1

abbrev pub cycle_cost_merkle : ℕ
cycle_cost_merkle = 1 + 2 + 9 + 1

abbrev pub cycle_cost_extra : ℕ
cycle_cost_extra = 1 + 1 + 1 + 2 + 2 + 1 + 1 + 1 + 256 / 16 + 65536 / 16 + 0

pub data PageState : Type 0 where
  unloaded loaded dirty : PageState

-- `goal > state` of the enumeration.
unfoldable pub above : PageState → PageState → Bool
above loaded unloaded = true
above dirty unloaded = true
above dirty loaded = true
above _ _ = false

-- The `image` that the source refers to is part of the state.
pub record PagedMemory : Type 0 where
  pub image : MemoryImage
  pub page_cache : ℕ → Option Page
  pub state_table : ℕ → Option PageState
  pub paging_cycles : ℕ

unfoldable pub paged_memory : MemoryImage → PagedMemory
paged_memory image = record {
  image = image;
  page_cache = λ _. none;
  state_table = λ _. none;
  paging_cycles = cycle_cost_extra;
}

unfoldable pub clear : PagedMemory → PagedMemory
clear s = record s {
  page_cache = λ _. none;
  state_table = λ _. none;
  paging_cycles = cycle_cost_extra;
}

-- `stateTable[idx]`, whose new entries are UNLOADED, and `pageCache[page]`, whose are of zeros.
abbrev pub or_unloaded : Option PageState → PageState
or_unloaded none = unloaded
or_unloaded (some state) = state

abbrev pub page_state : PagedMemory → ℕ → PageState
page_state s idx = or_unloaded (s.state_table idx)

abbrev pub or_zeros : Option Page → Page
or_zeros none = replicate page_size_words 0
or_zeros (some words) = words

abbrev pub cached : PagedMemory → ℕ → Page
cached s page = or_zeros (s.page_cache page)

abbrev pub set_state : ℕ → PageState → PagedMemory → PagedMemory
set_state idx state s = record s { state_table = update s.state_table idx state }

abbrev merkle_if : Bool → ℕ
merkle_if true = cycle_cost_merkle
merkle_if false = 0

abbrev is_unloaded : PageState → Bool
is_unloaded unloaded = true
is_unloaded _ = false

abbrev pub is_dirty : PageState → Bool
is_dirty dirty = true
is_dirty _ = false

-- What a node above the pages costs, when it goes from `state` to `goal`.
abbrev node_cost : ℕ → PageState → PageState → ℕ
node_cost idx state goal =
    if ltb idx memory_size_pages
    then merkle_if (is_unloaded state) + merkle_if (is_dirty goal)
    else 0

abbrev raise_node : ℕ → PageState → PagedMemory → PagedMemory
raise_node idx goal s = record s {
  state_table = update s.state_table idx goal;
  paging_cycles = s.paging_cycles + node_cost idx (page_state s idx) goal;
}

-- `while (idx != 0)`, which halves `idx`, so that `idx` rounds are enough.
unfoldable pub fixup_costs_from : ℕ → ℕ → PageState → PagedMemory → PagedMemory
unfolding above
fixup_costs_from zero idx goal s = s
fixup_costs_from (suc fuel) idx goal s =
    let raised = if above goal (page_state s idx) then raise_node idx goal s else s in
    let rest = fixup_costs_from fuel (idx / 2) goal raised in if idx == 0 then s else rest

unfoldable pub fixup_costs : ℕ → PageState → PagedMemory → PagedMemory
unfolding fixup_costs_from
fixup_costs idx goal s = fixup_costs_from idx idx goal s

unfoldable pub load_page : ℕ → PagedMemory → Result Error PagedMemory
unfolding get_page fixup_costs
load_page page s = get_page page s.image >>= λ (words, image). ok (
    fixup_costs (memory_size_pages + page) loaded (record s {
      image = image;
      page_cache = update s.page_cache page words;
      paging_cycles = s.paging_cycles + cycle_cost_page;
    }))

-- `if (state == UNLOADED) { loadPage(page); state = LOADED; }`
abbrev pub ensure_loaded : ℕ → PageState → PagedMemory → Result Error PagedMemory
ensure_loaded page unloaded s =
    load_page page s >>= λ next. ok (set_state (memory_size_pages + page) loaded next)
ensure_loaded page _ s = ok s

unfoldable pub load : ℕ → PagedMemory → Result Error (ℕ × PagedMemory)
unfolding load_page
load word s =
    let page = word / page_size_words in
    if leb 0x40000000 word
    then throws invalid_word
    else (ensure_loaded page (page_state s (memory_size_pages + page)) s >>= λ next.
        ok (get_or (cached next page) (word % page_size_words) 0, next))

unfoldable pub peek : ℕ → PagedMemory → Result Error (ℕ × PagedMemory)
unfolding get_page
peek word s =
    let page = word / page_size_words in
    if leb 0x40000000 word
    then throws invalid_word
    else elim (s.state_table (memory_size_pages + page)) [
      | none ↦ get_page page s.image >>= λ (words, image).
          ok (get_or words (word % page_size_words) 0, record s { image = image })
      | some _ ↦ ok (get_or (cached s page) (word % page_size_words) 0, s)
    ]

-- `if (state == LOADED)` of `store`.
abbrev pub mark_dirty : ℕ → PageState → PagedMemory → PagedMemory
mark_dirty idx loaded s =
    set_state idx dirty
      (fixup_costs idx dirty (record s { paging_cycles = s.paging_cycles + cycle_cost_page }))
mark_dirty idx _ s = s

abbrev pub write_word : ℕ → ℕ → PagedMemory → PagedMemory
write_word word val s =
    let page = word / page_size_words in
    record s {
      page_cache = update s.page_cache page (set (cached s page) (word % page_size_words) val);
    }

unfoldable pub store : ℕ → ℕ → PagedMemory → Result Error PagedMemory
unfolding load_page fixup_costs
store word val s =
    let page = word / page_size_words in
    let idx = memory_size_pages + page in
    if leb 0x40000000 word
    then throws invalid_word
    else (ensure_loaded page (page_state s idx) s >>= λ next.
        ok (write_word word val (mark_dirty idx (page_state next idx) next)))
