-- ===== src/Emu/Image/Laws.antt =====
-- The digests that are known form a Merkle tree.
use zirgen.Prelude.{
  ℕ, zero, suc, ◌+◌, ◌*◌, ◌/◌, ◌≤◌, ◌≡◌, ◌≢◌, List, none, some, ◌==◌, Bool-cases, sym, ◌∙◌, ==_iff,
  Option, Option-cases, inl, inr, ◌⊎◌, arith,
}
use zirgen.Emu.Image.{MemoryImage, Digest, hash_pair, fixup, fixup_digests, set_digest_at, update}

update-ne : {A : Type 0} (m : ℕ → Option A) (k : ℕ) (v : A) (j : ℕ) → j ≢ k → update m k v j ≡ m j
update-ne m k v j h = ground (arith, h)

module _ (sponge : List ℕ → List ℕ) where
  -- A node whose children are both known has the digest of the pair.
  abbrev pub IsHashed : MemoryImage → ℕ → Type 0
  IsHashed m n =
      (left right : Digest)
      → m.digests (2 * n) ≡ some left
      → m.digests (2 * n + 1) ≡ some right
      → m.digests n ≡ some (hash_pair sponge left right)

  abbrev pub IsMerkle : MemoryImage → Type 0
  IsMerkle m = (n : ℕ) → 1 ≤ n → IsHashed m n

  -- All nodes but the parent of `idx`, whose digest may be an old one.
  abbrev pub IsMerkleBut : ℕ → MemoryImage → Type 0
  IsMerkleBut idx m = (n : ℕ) → 1 ≤ n → n ≢ idx / 2 → IsHashed m n

  -- The parent has both children known, and gets its digest.
  hashed_up :
      (m : MemoryImage) (up : ℕ) (left right : Digest)
      → 1 ≤ up
      → m.digests (2 * up) ≡ some left
      → m.digests (2 * up + 1) ≡ some right
      → ((n : ℕ) → 1 ≤ n → n ≢ up → IsHashed m n)
      → IsMerkleBut up (set_digest_at up (hash_pair sponge left right) m)
  hashed_up m up left right h l r others n hn ne a b p q =
      let d = hash_pair sponge left right in
      let p' : m.digests (2 * n) ≡ some a =
        sym (update-ne m.digests up d (2 * n) (λ e. ne (omega (arith, e)))) ∙ p in
      let q' : m.digests (2 * n + 1) ≡ some b =
        sym (update-ne m.digests up d (2 * n + 1) (λ e. ne (omega (arith, e)))) ∙ q in
      elim (Bool-cases (n == up)) [
        | inl e ↦ let same = (==_iff n up).0 e in rw (e) cc
        | inr e ↦ rw (e) (others n hn (λ same. ground (arith, same, e)) a b p' q')
      ]

  -- A parent with a child that is not known has nothing to keep.
  unpaired :
      (m : MemoryImage) (up : ℕ)
      → (m.digests (2 * up) ≡ none) ⊎ (m.digests (2 * up + 1) ≡ none)
      → ((n : ℕ) → 1 ≤ n → n ≢ up → IsHashed m n)
      → IsMerkle m
  unpaired m up missing others n hn a b p q = elim (Bool-cases (n == up)) [
    | inl e ↦ let same = (==_iff n up).0 e in elim missing [ inl l ↦ cc | inr r ↦ cc ]
    | inr e ↦ others n hn (λ same. ground (arith, same, e)) a b p q
  ]

  fixup-IsMerkle :
      (fuel idx : ℕ) (m : MemoryImage)
      → 1 ≤ idx
      → idx ≤ fuel
      → IsMerkleBut idx m
      → IsMerkle (fixup sponge fuel idx m)
  unfolding fixup
  fixup-IsMerkle zero idx m h f k = absurd (omega arith)
  fixup-IsMerkle (suc fuel) idx m h f k = elim (Bool-cases (idx == 1)) [
    | inl e ↦ rw (e) (λ n hn. k n hn (λ q. ground (arith, q, e, hn)))
    | inr e ↦
        let up = idx / 2 in
        elim (Option-cases (m.digests (2 * up))) [
          | inl l ↦ rw (e, l) (unpaired m up (inl l) k)
          | inr (left, l) ↦ elim (Option-cases (m.digests (2 * up + 1))) [
            | inl r ↦ rw (e, l, r) (unpaired m up (inr r) k)
            | inr (right, r) ↦
                rw (e, l, r)
                  (fixup-IsMerkle fuel up (set_digest_at up (hash_pair sponge left right) m)
                    (ground arith) (omega arith) (hashed_up m up left right (ground arith) l r k))
          ]
        ]
  ]

  -- `fixupDigests` after a change at a node makes the known digests a Merkle tree again, if only
  -- the node's parent had an old digest; its loop ends at the root, or where a sibling is unknown.
  pub fixup_digests-IsMerkle :
      (idx : ℕ) (m : MemoryImage)
      → 1 ≤ idx
      → IsMerkleBut idx m
      → IsMerkle (fixup_digests sponge idx m)
  unfolding fixup_digests
  fixup_digests-IsMerkle idx m h k = fixup-IsMerkle idx idx m h (omega arith) k
