-- ===== src/BigInt/Poly/Loop.antt =====
-- The loops that change a vector in place: what they add up to, and how big its elements get.
use zirgen.Prelude.{ℕ, zero, suc, ◌≤◌, ◌<◌, ◌^◌, ◌≡◌, refl, ap, [], ◌∷◌, map, length, arith}
use zirgen.Prelude.Result.{Result, ok, throws, Post, ◌>>=◌}
use zirgen.Word.Signed.{ℤ, pos, ◌*ℤ◌}
use zirgen.BigInt.Int.{pos_part, neg_part, ◌+ℤ◌, ext, +ℤ_parts, pos_part-*ℤ, neg_part-*ℤ}
use zirgen.BigInt.Poly.{Failure, BytePoly, into, checked}
use zirgen.BigInt.Poly.Value.{value}

abbrev pub down : ℕ → ℕ
down zero = 0
down (suc n) = n

pub down_le : (n : ℕ) → down n ≤ n
down_le zero = omega arith
down_le (suc n) = omega arith

-- `B` of each element, with a number that counts down along the vector.
abbrev pub Each : (ℕ → ℤ → Type 0) → ℕ → BytePoly → Type 0
Each B c [] = Unit
Each B c (o ∷ out) = B c o × Each B (down c) out

pub Each-weaken :
    {B D : ℕ → ℤ → Type 0} (most c : ℕ) (out : BytePoly)
    → c ≤ most
    → ((k : ℕ) (o : ℤ) → k ≤ most → B k o → D k o)
    → Each B c out
    → Each D c out
Each-weaken most c [] le h e = tt
Each-weaken most c (o ∷ out) le h (b, e) =
    (h c o le b, Each-weaken most (down c) out (omega (arith, down_le c)) h e)

-- A bound on both sides.
abbrev pub IsBetween : ℕ → ℕ → ℤ → Type 0
IsBetween high low c = (pos_part c ≤ high) × (neg_part c ≤ low)

pub checked-ok :
    (high low : ℕ) (c : ℤ) → high < 2 ^ 31 → low < 2 ^ 31 → IsBetween high low c → checked c ≡ ok c
unfolding checked
checked-ok high low c h l (a, b) = ground arith

-- The new vector: its length, its elements and its value.
pub record Added (After : ℕ → ℤ → Type 0) (c : ℕ) (out : BytePoly) (more : ℤ) (next : BytePoly)
    : Type 0 where
  pub same_length : length next ≡ length out
  pub each : Each After c next
  pub sum : value next ≡ value out +ℤ more

regroup : (o t r g : ℤ) → o +ℤ t +ℤ pos 256 *ℤ (r +ℤ g) ≡ o +ℤ pos 256 *ℤ r +ℤ (t +ℤ pos 256 *ℤ g)
regroup o t r g = ext _ _ (omega (arith, +ℤ_parts, pos_part-*ℤ, neg_part-*ℤ))

plus_zero : (a : ℤ) → a ≡ a +ℤ pos 0
plus_zero a = ext _ _ (omega (arith, +ℤ_parts))

-- A loop whose rounds do not overflow, and add `g x` to their elements.
module _ (f : ℤ → ℤ → Result Failure ℤ) (g : ℤ → ℤ) (Before After : ℕ → ℤ → Type 0)
    (Takes : ℤ → Type 0) where
  abbrev Adds : ℕ → ℤ → ℤ → Type 0
  Adds n o x = Post (λ v. After (suc n) v × (v ≡ o +ℤ g x)) (λ e. ⊥) (f o x)

  next_round :
      (n : ℕ) (o x : ℤ) (xs out : BytePoly)
      → Adds n o x
      → Post (Added After n out (value (map g xs))) (λ e. ⊥) (into f xs out)
      → Post
          (Added After (suc n) (o ∷ out) (value (map g (x ∷ xs))))
          (λ e. ⊥)
          (into f (x ∷ xs) (o ∷ out))
  unfolding into value
  next_round n o x xs out h r = go (f o x) h (into f xs out) r
    where
      go :
          (a : Result Failure ℤ)
          → Post (λ v. After (suc n) v × (v ≡ o +ℤ g x)) (λ e. ⊥) a
          → (b : Result Failure BytePoly) → Post (Added After n out (value (map g xs))) (λ e. ⊥) b
          → Post
              (Added After (suc n) (o ∷ out) (value (map g (x ∷ xs))))
              (λ e. ⊥)
              (a >>= λ v. b >>= λ rest. ok (v ∷ rest))
      go (ok v) (after, e) (ok rest) r = record {
        same_length = ap suc r.same_length;
        each = (after, r.each);
        sum = rw (e, r.sum) (regroup o (g x) (value out) (value (map g xs)));
      }
      go (ok v) (after, e) (throws error) r = absurd r
      go (throws error) h b r = absurd h

  at_zero : ((o : ℤ) → Before 0 o → After 0 o) → (k : ℕ) (o : ℤ) → k ≤ 0 → Before k o → After k o
  at_zero stop zero o q b = stop o b
  at_zero stop (suc k) o q b = absurd (omega arith)

  pub into-Added :
      ((n : ℕ) (o x : ℤ) → Takes x → Before (suc n) o → Adds n o x)
      → ((o : ℤ) → Before 0 o → After 0 o)
      → (xs out : BytePoly) → Each (λ _. Takes) 0 xs
      → length xs ≤ length out
      → Each Before (length xs) out
      → Post (Added After (length xs) out (value (map g xs))) (λ e. ⊥) (into f xs out)
  unfolding into value
  into-Added step stop [] out t le h = record {
    same_length = refl;
    each = Each-weaken 0 0 out (omega arith) (at_zero stop) h;
    sum = plus_zero (value out);
  }
  into-Added step stop (x ∷ xs) [] t le h = absurd (omega arith)
  into-Added step stop (x ∷ xs) (o ∷ out) (tx, t) le (b, h) =
      next_round (length xs) o x xs out (step (length xs) o x tx b)
        (into-Added step stop xs out t (omega arith) h)
