-- ===== src/Emu/Paging/Laws.antt =====
-- What is stored is loaded again.
use zirgen.Prelude.{
  ℕ, zero, suc, ◌+◌, ◌/◌, ◌%◌, ◌≡◌, ◌≢◌, refl, ap, ◌∙◌, Option, some, false, length, get_or, set,
  get_or-set_self, Bool-cases, Option-cases, inl, leb, inr, if_both, if◌then◌else◌, arith, ◌==◌,
}
use zirgen.Prelude.Result.{ok, Post, Post-bind}
use zirgen.Emu.Image.{
  MemoryImage, Page, Error, get_page, expand_if_zero, memory_size_pages, page_size_words, update,
}
use zirgen.Emu.Paging.{
  PagedMemory, PageState, unloaded, loaded, dirty, page_state, cached, or_zeros, fixup_costs_from,
  or_unloaded, raise_node, above, fixup_costs, cycle_cost_page, load_page, ensure_loaded,
  mark_dirty, write_word, load, store, set_state,
}

pub update_self : {A : Type 0} (m : ℕ → Option A) (k : ℕ) (v : A) → update m k v k ≡ some v
update_self m k v = ground arith

-- Every page has its 256 words.
pub record IsSized (s : PagedMemory) : Type 0 where
  pub zero_page : length s.image.zero_page ≡ page_size_words
  pub pages : (p : ℕ) (w : Page) → s.image.pages p ≡ some w → length w ≡ page_size_words
  pub cache : (p : ℕ) (w : Page) → s.page_cache p ≡ some w → length w ≡ page_size_words

abbrev pub Anything : Error → Type 0
Anything e = Unit

get_page-length :
    (page : ℕ) (s : PagedMemory)
    → IsSized s
    → Post
        (λ (r : Page × MemoryImage). length r.0 ≡ page_size_words)
        Anything
        (get_page page s.image)
unfolding get_page
get_page-length page s z = elim (Option-cases (s.image.pages page)) [
  | inl e ↦
      rw (Post, e)
        (if_both (Post (λ (r : Page × MemoryImage). length r.0 ≡ page_size_words) Anything)
          (expand_if_zero (memory_size_pages + page) s.image).0 z.zero_page tt)
  | inr (w, e) ↦ rw (Post, e) (z.pages page w e)
]

fixup_costs_from-page_cache :
    (fuel idx : ℕ) (goal : PageState) (s : PagedMemory)
    → (fixup_costs_from fuel idx goal s).page_cache ≡ s.page_cache
unfolding fixup_costs_from
fixup_costs_from-page_cache zero idx goal s = refl
fixup_costs_from-page_cache (suc fuel) idx goal s = elim (Bool-cases (idx == 0)) [
  | inl e ↦ rw (e) refl
  | inr e ↦
      let raised = if above goal (page_state s idx) then raise_node idx goal s else s in
      rw (e) (
        fixup_costs_from-page_cache fuel (idx / 2) goal raised
        ∙ if_both (λ (t : PagedMemory). t.page_cache ≡ s.page_cache) (above goal (page_state s idx))
            refl refl)
]

-- The page of a word is in the cache with its words, and its state says so.
abbrev Ready : ℕ → PagedMemory → Type 0
Ready page s =
    (page_state s (memory_size_pages + page) ≢ unloaded)
    × (length (cached s page) ≡ page_size_words)

load_page-length :
    (page : ℕ) (s : PagedMemory)
    → IsSized s
    → Post (λ s'. length (cached s' page) ≡ page_size_words) Anything (load_page page s)
unfolding load_page fixup_costs
load_page-length page s z =
    Post-bind {P = λ r. length r.0 ≡ page_size_words} _ _ (get_page page s.image) _
      (get_page-length page s z)
      (λ r h.
        ap (λ (c : ℕ → Option Page). length (or_zeros (c page)))
          (fixup_costs_from-page_cache (memory_size_pages + page) (memory_size_pages + page) loaded
            _)
        ∙ ap (λ (o : Option Page). length (or_zeros o)) (update_self s.page_cache page r.0)
        ∙ h)

mark_dirty-page_state :
    (idx : ℕ) (st : PageState) (s : PagedMemory)
    → page_state s idx ≡ st
    → st ≢ unloaded
    → page_state (mark_dirty idx st s) idx ≡ dirty
mark_dirty-page_state idx unloaded s e h = absurd (h refl)
mark_dirty-page_state idx loaded s e h = ap or_unloaded (
    update_self
      (fixup_costs idx dirty
        (record s { paging_cycles = s.paging_cycles + cycle_cost_page })).state_table
      idx dirty)
mark_dirty-page_state idx dirty s e h = e

mark_dirty-page_cache :
    (idx : ℕ) (st : PageState) (s : PagedMemory) → (mark_dirty idx st s).page_cache ≡ s.page_cache
unfolding fixup_costs
mark_dirty-page_cache idx unloaded s = refl
mark_dirty-page_cache idx loaded s = fixup_costs_from-page_cache idx idx dirty _
mark_dirty-page_cache idx dirty s = refl

cached-length : (page : ℕ) (s : PagedMemory) → IsSized s → length (cached s page) ≡ page_size_words
cached-length page s z = elim (Option-cases (s.page_cache page)) [
  | inl e ↦ rw (e) refl
  | inr (w, e) ↦ rw (e) (z.cache page w e)
]

-- After `load` and `store` have made sure of the page of a word.
ensure_loaded-Ready :
    (page : ℕ) (st : PageState) (s : PagedMemory)
    → IsSized s
    → page_state s (memory_size_pages + page) ≡ st
    → Post (Ready page) Anything (ensure_loaded page st s)
ensure_loaded-Ready page unloaded s z e =
    Post-bind {P = λ s'. length (cached s' page) ≡ page_size_words} _ _ (load_page page s) _
      (load_page-length page s z)
      (λ s' h.
        let now : page_state (set_state (memory_size_pages + page) loaded s')
              (memory_size_pages + page)
            ≡ loaded =
          ap or_unloaded (update_self s'.state_table (memory_size_pages + page) loaded) in
        ((λ q. cc), h))
ensure_loaded-Ready page loaded s z e = ((λ q. cc), cached-length page s z)
ensure_loaded-Ready page dirty s z e = ((λ q. cc), cached-length page s z)

-- The page of a word, once it is ready, has the word that is written.
written_word :
    (word val : ℕ) (s : PagedMemory)
    → length (cached s (word / page_size_words)) ≡ page_size_words
    → get_or (cached (write_word word val s) (word / page_size_words)) (word % page_size_words) 0
      ≡ val
written_word word val s h =
    let page = word / page_size_words in
    let off = word % page_size_words in
    let words = set (cached s page) off val in
    ap (λ (o : Option Page). get_or (or_zeros o) off 0) (update_self s.page_cache page words)
    ∙ get_or-set_self (cached s page) off val 0 (omega (arith, h))

read_back :
    (word val : ℕ) (s : PagedMemory)
    → leb 0x40000000 word ≡ false
    → page_state s (memory_size_pages + word / page_size_words) ≡ dirty
    → length (cached s (word / page_size_words)) ≡ page_size_words
    → load word (write_word word val s) ≡ ok (val, write_word word val s)
unfolding load
read_back word val s e d h =
    rw (e, d) (ap (λ (v : ℕ). ok (v, write_word word val s)) (written_word word val s h))

-- A word that `store` writes is what `load` reads next, from the cache and at no cost.
pub load-store :
    (word val : ℕ) (s : PagedMemory)
    → IsSized s
    → Post (λ s'. load word s' ≡ ok (val, s')) (λ e. Unit) (store word val s)
unfolding store
load-store word val s z = elim (Bool-cases (leb 0x40000000 word)) [
  | inl e ↦ rw (Post, e) tt
  | inr e ↦
      let page = word / page_size_words in
      let idx = memory_size_pages + page in
      rw (e) (
        Post-bind {P = Ready page} (λ s'. load word s' ≡ ok (val, s')) (λ _. Unit)
          (ensure_loaded page (page_state s idx) s) _
          (ensure_loaded-Ready page (page_state s idx) s z refl)
          (λ next r.
            let st = page_state next idx in
            read_back word val (mark_dirty idx st next) e
              (mark_dirty-page_state idx st next refl r.0)
              (ap (λ (c : ℕ → Option Page). length (or_zeros (c page)))
                  (mark_dirty-page_cache idx st next)
                ∙ r.1)))
]
