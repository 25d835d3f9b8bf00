-- ===== src/Emu/Image/Words/Pages.antt =====
-- What `setPage` does to the pages of an image.
use zirgen.Prelude.{
  ℕ, zero, suc, ◌+◌, ◌-◌, ◌*◌, Option-cases, ◌/◌, ◌≡◌, refl, ap, ◌∙◌, ◌==◌, Bool-cases, inl, inr,
  Option, List, [], get_or,
}
use zirgen.Emu.Image.{
  MemoryImage, Page, memory_size_pages, set_page, update, fixup, fixup_digests, expand_from,
  expand_zero, expand_if_zero, is_zero, set_digest_at, both, known, log2_floor, hash_page,
}

module _ (sponge : List ℕ → List ℕ) where
  fixup-pages : (fuel idx : ℕ) (m : MemoryImage) → (fixup sponge fuel idx m).pages ≡ m.pages
  unfolding fixup
  fixup-pages zero idx m = refl
  fixup-pages (suc fuel) idx m =
      let up = idx / 2 in
      elim (Bool-cases (idx == 1)) [
        | inl e ↦ rw e refl
        | inr e ↦ elim (Option-cases (both sponge (m.digests (2 * up)) (m.digests (2 * up + 1)))) [
          | inl n ↦ rw (e, n) refl
          | inr (d, n) ↦ rw (e, n) (fixup-pages fuel up (set_digest_at up d m))
        ]
      ]

expand_from-pages :
    (fuel idx depth : ℕ) (m : MemoryImage) → (expand_from fuel idx depth m).pages ≡ m.pages
unfolding expand_from
expand_from-pages zero idx depth m = refl
expand_from-pages (suc fuel) idx depth m =
    let new_idx = idx / 2 in
    let d = get_or m.zero_digests depth [] in
    elim (Bool-cases (known (m.digests idx))) [
      | inl e ↦ rw e refl
      | inr e ↦ rw e (
          expand_from-pages fuel new_idx (depth - 1)
            (set_digest_at (2 * new_idx + 1) d (set_digest_at (2 * new_idx) d m)))
    ]

expand_if_zero-pages : (idx : ℕ) (m : MemoryImage) → (expand_if_zero idx m).1.pages ≡ m.pages
unfolding expand_if_zero expand_zero
expand_if_zero-pages idx m = elim (Bool-cases (is_zero idx m)) [
  | inl e ↦ rw e (expand_from-pages (suc idx) idx (log2_floor idx) m)
  | inr e ↦ rw e refl
]

module _ (sponge : List ℕ → List ℕ) where
  pub set_page-pages :
      (k : ℕ) (words : Page) (m : MemoryImage)
      → (set_page sponge k words m).pages ≡ update m.pages k words
  unfolding set_page fixup_digests
  set_page-pages k words m =
      let idx = memory_size_pages + k in
      let next = (expand_if_zero idx m).1 in
      let placed =
        set_digest_at idx (hash_page sponge words)
          (record next { pages = update next.pages k words }) in
      fixup-pages sponge idx idx placed
      ∙ ap (λ (pages : ℕ → Option Page). update pages k words) (expand_if_zero-pages idx m)
