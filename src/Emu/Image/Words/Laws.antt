-- ===== src/Emu/Image/Words/Laws.antt =====
-- What the image that is made from words holds.
use mathlib.Core.Path.{subst}
use zirgen.Prelude.{
  ℕ, suc, Option-cases, ◌/◌, ◌%◌, ◌^◌, ◌<◌, ◌≤◌, ◌≡◌, ◌≢◌, refl, ap, sym, ◌∙◌, ◌==◌, ==_iff, false,
  Bool-cases, inl, inr, if◌then◌else◌, Option, none, some, List, [], ◌∷◌, get_or, length,
  length-set, length-replicate, get_or-set_self, get_or-set_ne, get_or-replicate, replicate, arith,
}
use zirgen.Emu.Image.{Page, page_size_words, zeros, init_zeros, update}
use zirgen.Emu.Image.Words.Pages.{set_page-pages}
use zirgen.Emu.Image.Words.{Filling, flush, open_page, put_word, fill_words, from_words}
use zirgen.Emu.Image.Words.Shape.{
  WordMap, with_words, Ascending, past, or_zero, IsPage, IsPage-update, some_not_none, present_here,
  no_page,
}

-- The pages of the image, with the open page at its place.
abbrev seen : Filling → ℕ → Option Page
seen f k = if k == f.cur_page_id then f.cur_page else f.image.pages k

seen_current : (f : Filling) → seen f f.cur_page_id ≡ f.cur_page
seen_current f = rw ((==_iff f.cur_page_id f.cur_page_id).1 refl) refl

seen_other : (f : Filling) (j : ℕ) → (j == f.cur_page_id) ≡ false → seen f j ≡ f.image.pages j
seen_other f j e = rw e refl

record IsFilled (words : WordMap) (least : ℕ) (f : Filling) : Type 0 where
  pub pages : (k : ℕ) → IsPage words k (seen f k)
  pub recent :
      (a : ℕ)
      → words a ≢ none
      → (a / page_size_words ≤ f.cur_page_id) × (f.cur_page_id ≤ least / page_size_words)
  pub unopened :
      f.cur_page ≡ none → (f.cur_page_id ≡ 0xffffffff) × (f.image.pages f.cur_page_id ≡ none)

-- The page `k` is open, and the words are in it and in the other pages.
record IsOpen (words : WordMap) (k : ℕ) (f : Filling) : Type 0 where
  pub current : f.cur_page_id ≡ k
  pub page : Page
  pub opened : f.cur_page ≡ some page
  pub size : length page ≡ page_size_words
  pub held :
      (a : ℕ) → a / page_size_words ≡ k → get_or page (a % page_size_words) 0 ≡ or_zero (words a)
  pub others : (j : ℕ) → (j == k) ≡ false → IsPage words j (f.image.pages j)

put_word-IsFilled :
    (words : WordMap) (addr v : ℕ) (f : Filling)
    → IsOpen words (addr / page_size_words) f
    → ((a : ℕ) → words a ≢ none → a / page_size_words ≤ addr / page_size_words)
    → IsFilled (update words addr v) (suc addr) (put_word addr v f)
unfolding put_word
put_word-IsFilled words addr v f o below = rw o.opened (record {
  pages = λ k. elim (Bool-cases (k == f.cur_page_id)) [
    | inl e ↦ rw e (
      length-set o.page (addr % page_size_words) v ∙ o.size,
      λ a inside. elim (Bool-cases (a == addr)) [
        | inl s ↦
            rw (s, (==_iff a addr).0 s)
              (get_or-set_self o.page (addr % page_size_words) v 0 (omega (arith, o.size)))
        | inr s ↦ rw s (
            get_or-set_ne o.page (addr % page_size_words) (a % page_size_words) v 0
              (λ same. ground (arith, s, same, inside, e, o.current))
            ∙ o.held a (ground (arith, inside, e, o.current)))
      ],
      record {
        addr = addr;
        inside = ground (arith, e, o.current);
        present = present_here words addr v;
      },
    )
    | inr e ↦ rw e (
        IsPage-update words k addr v (f.image.pages k) (λ same. ground (arith, same, e, o.current))
          (o.others k (ground (arith, e, o.current))))
  ];
  recent = λ a h. elim (Bool-cases (a == addr)) [
    | inl e ↦ (ground (arith, e, o.current), ground (arith, o.current))
    | inr e ↦ (rw (sym o.current) at below a (rw e at h), omega (arith, o.current))
  ];
  unopened = λ e. absurd (no_page e);
})

module _ (sponge : List ℕ → List ℕ) where
  flush-pages :
      (words : WordMap) (least k : ℕ) (f : Filling)
      → IsFilled words least f
      → (flush sponge f).pages k ≡ seen f k
  unfolding flush
  flush-pages words least k f h = elim (Option-cases f.cur_page) [
    | inl n ↦ elim (Bool-cases (k == f.cur_page_id)) [
      | inl e ↦ rw (n, e) (ap f.image.pages ((==_iff k f.cur_page_id).0 e) ∙ (h.unopened n).1)
      | inr e ↦ rw (n, e) refl
    ]
    | inr (p, n) ↦
        rw n (
          ap (λ (pages : ℕ → Option Page). pages k) (set_page-pages sponge f.cur_page_id p f.image))
  ]

  open_page-IsOpen :
      (words : WordMap) (least addr : ℕ) (f : Filling)
      → least ≤ addr
      → addr < 2 ^ 32
      → IsFilled words least f
      → IsOpen words (addr / page_size_words) (open_page sponge (addr / page_size_words) f)
  unfolding open_page
  open_page-IsOpen words least addr f from small h =
      let k = addr / page_size_words in
      elim (Bool-cases (k == f.cur_page_id)) [
        | inl e ↦
            let same = (==_iff k f.cur_page_id).0 e in
            elim (Option-cases f.cur_page) [
              | inl n ↦ absurd (omega (arith, (h.unopened n).0, same, small))
              | inr (p, n) ↦
                  let (size, held, w) : IsPage words f.cur_page_id (some p) =
                    subst (IsPage words f.cur_page_id) (seen_current f ∙ n)
                      (h.pages f.cur_page_id) in
                  rw e (record {
                    current = sym same;
                    page = p;
                    opened = n;
                    size = size;
                    held = λ a inside. held a (inside ∙ same);
                    others = λ j apart.
                        subst (IsPage words j)
                          (seen_other f j (ap (λ (i : ℕ). j == i) (sym same) ∙ apart)) (h.pages j);
                  })
            ]
        | inr e ↦ rw e (record {
          current = refl;
          page = replicate page_size_words 0;
          opened = refl;
          size = length-replicate {A = ℕ} page_size_words 0;
          held = λ a inside. elim (Option-cases (words a)) [
            | inl n ↦ rw n (get_or-replicate page_size_words (a % page_size_words))
            | inr (v, n) ↦
                let (before, after) = h.recent a (rw n some_not_none) in
                absurd (ground (arith, before, after, inside, e, from))
          ];
          others =
              λ j apart. subst (IsPage words j) (sym (flush-pages words least j f h)) (h.pages j);
        })
      ]

  fill_words-IsFilled :
      (entries : List (ℕ × ℕ)) (words : WordMap) (least : ℕ) (f : Filling)
      → Ascending least entries
      → IsFilled words least f
      → IsFilled (with_words entries words) (past least entries) (fill_words sponge entries f)
  unfolding fill_words
  fill_words-IsFilled [] words least f up h = h
  fill_words-IsFilled ((addr, v) ∷ rest) words least f (from, small, up) h =
      fill_words-IsFilled rest (update words addr v) (suc addr)
        (put_word addr v (open_page sponge (addr / page_size_words) f)) up
        (put_word-IsFilled words addr v (open_page sponge (addr / page_size_words) f)
          (open_page-IsOpen words least addr f from small h)
          (λ a present. omega (arith, h.recent a present, from)))

  -- The image of a `std::map` holds its words: for every page, the image has the page if and only if
  -- the map has a word in it; the page has 256 words, those of the map at their addresses and 0
  -- elsewhere. The addresses are below 2 ^ 32 and ascend, as the map is iterated.
  pub from_words-IsPage :
      (entries : List (ℕ × ℕ)) (k : ℕ)
      → Ascending 0 entries
      → IsPage (with_words entries (λ _. none)) k ((from_words sponge entries).pages k)
  unfolding from_words zeros init_zeros
  from_words-IsPage entries k up =
      let empty : Filling = record {
        image = zeros sponge;
        cur_page_id = 0xffffffff;
        cur_page = none;
      } in
      let filled =
        fill_words-IsFilled entries (λ _. none) 0 empty up
          (record {
            pages = λ j. elim (Bool-cases (j == 0xffffffff)) [
              | inl e ↦ rw e (λ a inside. refl)
              | inr e ↦ rw e (λ a inside. refl)
            ];
            recent = λ a present. absurd (present refl);
            unopened = λ e. (refl, refl);
          }) in
      subst (IsPage (with_words entries (λ _. none)) k)
        (sym (
          flush-pages (with_words entries (λ _. none)) (past 0 entries) k
            (fill_words sponge entries empty) filled))
        (filled.pages k)
