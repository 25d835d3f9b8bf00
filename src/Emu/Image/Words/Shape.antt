-- ===== src/Emu/Image/Words/Shape.antt =====
-- The words of a map, and the pages that hold them: no code of the repository.
use zirgen.Prelude.{
  ℕ, suc, ◌/◌, ◌%◌, ◌^◌, ◌<◌, ◌≤◌, ◌≡◌, ◌≢◌, refl, ap, sym, ◌∙◌, ◌==◌, ==_iff, Bool-cases, inl, inr,
  Option, none, some, List, [], ◌∷◌, get_or, length,
}
use zirgen.Emu.Image.{Page, page_size_words, update}

abbrev pub WordMap : Type 0
WordMap = ℕ → Option ℕ

-- The map with these entries, by address.
abbrev pub with_words : List (ℕ × ℕ) → WordMap → WordMap
with_words [] words = words
with_words ((addr, v) ∷ rest) words = with_words rest (update words addr v)

-- Each address from `least` on, and above the one before it.
abbrev pub Ascending : ℕ → List (ℕ × ℕ) → Type 0
Ascending least [] = Unit
Ascending least ((addr, v) ∷ rest) = (least ≤ addr) × (addr < 2 ^ 32) × Ascending (suc addr) rest

-- Behind the last address.
abbrev pub past : ℕ → List (ℕ × ℕ) → ℕ
past least [] = least
past least ((addr, v) ∷ rest) = past (suc addr) rest

abbrev pub or_zero : Option ℕ → ℕ
or_zero none = 0
or_zero (some v) = v

pub record HasWord (words : WordMap) (k : ℕ) : Type 0 where
  pub addr : ℕ
  pub inside : addr / page_size_words ≡ k
  pub present : words addr ≢ none

-- What a page that is known holds: the words of the map at its addresses, one of them at least, and 0
-- elsewhere; a page that is not known has no words in the map.
abbrev pub IsPage : WordMap → ℕ → Option Page → Type 0
IsPage words k none = (a : ℕ) → a / page_size_words ≡ k → words a ≡ none
IsPage words k (some page) =
    (length page ≡ page_size_words)
    × ((a : ℕ) → a / page_size_words ≡ k → get_or page (a % page_size_words) 0 ≡ or_zero (words a))
    × HasWord words k

pub some_not_none : {v : ℕ} → some v ≢ none
some_not_none e = cc

pub present_here : (words : WordMap) (addr v : ℕ) → update words addr v addr ≢ none
present_here words addr v = rw ((==_iff addr addr).1 refl) some_not_none

pub no_page : {page : Page} → ◌≢◌ {A = Option Page} (some page) none
no_page e = cc

pub IsPage-update :
    (words : WordMap) (k addr v : ℕ) (o : Option Page)
    → addr / page_size_words ≢ k
    → IsPage words k o
    → IsPage (update words addr v) k o
IsPage-update words k addr v none apart h = λ a inside. elim (Bool-cases (a == addr)) [
  | inl e ↦
      absurd (apart (ap (λ (b : ℕ). b / page_size_words) (sym ((==_iff a addr).0 e)) ∙ inside))
  | inr e ↦ rw e (h a inside)
]
IsPage-update words k addr v (some page) apart (size, held, w) = (
  size,
  λ a inside. elim (Bool-cases (a == addr)) [
    | inl e ↦
        absurd (apart (ap (λ (b : ℕ). b / page_size_words) (sym ((==_iff a addr).0 e)) ∙ inside))
    | inr e ↦ rw e (held a inside)
  ],
  record {
    addr = w.addr;
    inside = w.inside;
    present = elim (Bool-cases (w.addr == addr)) [
      | inl e ↦ rw e some_not_none
      | inr e ↦ rw e w.present
    ];
  },
)
