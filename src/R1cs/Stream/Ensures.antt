-- ===== src/R1cs/Stream/Ensures.antt =====
-- What a reader returns, if it returns, from a file of bytes: numbers that fit their words and
-- strings of the length that was asked for.
use zirgen.Prelude.{
  ℕ, zero, suc, ◌+◌, ◌*◌, ◌^◌, ◌≤◌, ◌<◌, ◌≡◌, refl, ap, Bool, Bool-cases, true, false, inl, inr,
  List, [], ◌∷◌, length, get_or, bit_or, arith, ltb, leb,
}
use zirgen.Prelude.Result.{Result, ok, throws, Post, Post-bind}
use zirgen.Bits.{bit_or-lt}
use zirgen.R1cs.Stream.{
  IoException, File, Reads, Capacity, ◌>>=◌, ◌>>◌, return, check, take, drop, read_item, u32_of,
  u64_of, read_u32, read_u64, read_bigint, within_capacity, u32_within, u64_within, bigint_within,
  read_times,
}
use zirgen.R1cs.Stream.Parses.{All}

abbrev pub IsByte : ℕ → Type 0
IsByte b = b < 256

abbrev pub OfBytes : File → Type 0
OfBytes f = All IsByte f.bytes

abbrev pub SectionOfBytes : Capacity → Type 0
SectionOfBytes (capacity, f) = OfBytes f

-- The invariant stays, and what is returned has `P`.
pub record Ensures {S A : Type 0} (I : S → Type 0) (P : A → Type 0) (m : Reads S A) : Type 0 where
  pub from : (s : S) → I s → Post (λ (r : A × S). P r.0 × I r.1) (λ _. Unit {0}) (m s)

module _ {S : Type 0} {I : S → Type 0} where
  pub Ensures-return : {A : Type 0} {P : A → Type 0} (a : A) → P a → Ensures I P (return a)
  Ensures-return a p = record { from = λ s h. (p, h) }

  pub Ensures-bind :
      {A B : Type 0} {P : A → Type 0} {Q : B → Type 0} {m : Reads S A} {k : A → Reads S B}
      → Ensures I P m
      → ((a : A) → P a → Ensures I Q (k a))
      → Ensures I Q (m >>= k)
  Ensures-bind {m} {k} first next = record {
    from = λ s h.
        Post-bind _ _ (m s) (λ (a, t). k a t) (first.from s h)
          (λ (a, t) (p, i). (next a p).from t i);
  }

  pub Ensures-weaken :
      {A : Type 0} {P Q : A → Type 0} {m : Reads S A}
      → ((a : A) → P a → Q a)
      → Ensures I P m
      → Ensures I Q m
  Ensures-weaken {P} {Q} {m} f one = record { from = λ s h. go (m s) (one.from s h) }
    where
      go :
          (r : Result IoException (_ × S))
          → Post (λ r. P r.0 × I r.1) (λ _. Unit {0}) r
          → Post (λ r. Q r.0 × I r.1) (λ _. Unit {0}) r
      go (ok (a, t)) (p, i) = (f a p, i)
      go (throws e) h = h

  pub Ensures-check :
      {A : Type 0} {P : A → Type 0} (cond : Bool) (e : IoException) {k : Reads S A}
      → (cond ≡ false → Ensures I P k)
      → Ensures I P (check cond e >> k)
  Ensures-check true e next = record { from = λ s h. tt }
  Ensures-check false e next = next refl

  pub Ensures-read_times :
      {A : Type 0} {P : A → Type 0} (n : ℕ) {m : Reads S A}
      → Ensures I P m
      → Ensures I (λ values. (length values ≡ n) × All P values) (read_times n m)
  unfolding read_times
  Ensures-read_times zero one = Ensures-return [] (refl, tt)
  Ensures-read_times (suc n) one = Ensures-bind one (λ a p.
      Ensures-bind (Ensures-read_times n one)
        (λ rest (e, ps). Ensures-return (a ∷ rest) (ap suc e, (p, ps))))

pub All-take : (n : ℕ) (xs : List ℕ) → All IsByte xs → All IsByte (take n xs)
All-take zero xs h = tt
All-take (suc n) [] h = tt
All-take (suc n) (x ∷ xs) (p, h) = (p, All-take n xs h)

pub All-drop : (n : ℕ) (xs : List ℕ) → All IsByte xs → All IsByte (drop n xs)
All-drop zero xs h = h
All-drop (suc n) [] h = tt
All-drop (suc n) (x ∷ xs) (p, h) = All-drop n xs h

length-take-drop : (n k : ℕ) (xs : List ℕ) → k + n ≤ length xs → length (take n (drop k xs)) ≡ n
length-take-drop zero zero xs h = refl
length-take-drop (suc n) zero [] h = absurd (omega arith)
length-take-drop (suc n) zero (x ∷ xs) h = ap suc (length-take-drop n zero xs (omega arith))
length-take-drop zero (suc k) [] h = refl
length-take-drop (suc n) (suc k) [] h = absurd (omega arith)
length-take-drop n (suc k) (x ∷ xs) h = length-take-drop n k xs (omega arith)

Ensures-read_item :
    (n : ℕ) → Ensures OfBytes (λ buf. (length buf ≡ n) × All IsByte buf) (read_item n)
unfolding read_item
Ensures-read_item n = record {
  from = λ f h. elim (Bool-cases f.eof) [
    | inl e ↦ rw e tt
    | inr e ↦ elim (Bool-cases (leb (f.position + n) (length f.bytes))) [
      | inl fits ↦
          let size = length-take-drop n f.position f.bytes (ground (arith, fits)) in
          let kept = All-take n (drop f.position f.bytes) (All-drop f.position f.bytes h) in
          rw (e, fits) ((size, kept), h)
      | inr short ↦ rw (e, short) tt
    ]
  ];
}

pub get_or-IsByte : (buf : List ℕ) (i : ℕ) → All IsByte buf → IsByte (get_or buf i 0)
get_or-IsByte [] i h = omega arith
get_or-IsByte (b ∷ buf) zero (p, h) = p
get_or-IsByte (b ∷ buf) (suc i) (p, h) = get_or-IsByte buf i h

-- A byte at the `k` low bits, under `w`.
pub byte_byte_joined-lt :
    (w k low : ℕ) (buf : List ℕ) (i : ℕ)
    → All IsByte buf
    → ((b : ℕ) → b < 256 → b * 2 ^ k < 2 ^ w)
    → low < 2 ^ w
    → bit_or low (get_or buf i 0 * 2 ^ k) < 2 ^ w
byte_byte_joined-lt w k low buf i h fits below =
    bit_or-lt w low (get_or buf i 0 * 2 ^ k) below (fits (get_or buf i 0) (get_or-IsByte buf i h))

u32_of-lt : (buf : List ℕ) → All IsByte buf → u32_of buf < 2 ^ 32
unfolding u32_of
u32_of-lt buf h =
    byte_byte_joined-lt 32 24 _ buf 3 h (λ b p. omega arith)
      (byte_byte_joined-lt 32 16 _ buf 2 h (λ b p. omega arith)
        (byte_byte_joined-lt 32 8 _ buf 1 h (λ b p. omega arith)
          (omega (arith, get_or-IsByte buf 0 h))))

u64_of-lt : (buf : List ℕ) → All IsByte buf → u64_of buf < 2 ^ 64
unfolding u64_of
u64_of-lt buf h =
    byte_byte_joined-lt 64 56 _ buf 7 h (λ b p. omega arith)
      (byte_byte_joined-lt 64 48 _ buf 6 h (λ b p. omega arith)
        (byte_byte_joined-lt 64 40 _ buf 5 h (λ b p. omega arith)
          (byte_byte_joined-lt 64 32 _ buf 4 h (λ b p. omega arith)
            (byte_byte_joined-lt 64 24 _ buf 3 h (λ b p. omega arith)
              (byte_byte_joined-lt 64 16 _ buf 2 h (λ b p. omega arith)
                (byte_byte_joined-lt 64 8 _ buf 1 h (λ b p. omega arith)
                  (omega (arith, get_or-IsByte buf 0 h))))))))

Ensures-within_capacity :
    {A : Type 0} {P : A → Type 0} (n : ℕ) {m : Reads File A}
    → Ensures OfBytes P m
    → Ensures SectionOfBytes P (within_capacity n m)
unfolding within_capacity
Ensures-within_capacity n {m} one = record {
  from = λ (capacity, f) h. elim (Bool-cases (ltb capacity n)) [
    | inl e ↦ rw e tt
    | inr e ↦ rw e (Post-bind _ _ (m f) _ (one.from f h) (λ (a, g) p. p))
  ];
}

pub Ensures-read_u32 : Ensures OfBytes (λ x. x < 2 ^ 32) read_u32
unfolding read_u32
Ensures-read_u32 =
    Ensures-bind (Ensures-read_item 4) (λ buf (e, h). Ensures-return (u32_of buf) (u32_of-lt buf h))

pub Ensures-read_u64 : Ensures OfBytes (λ x. x < 2 ^ 64) read_u64
unfolding read_u64
Ensures-read_u64 =
    Ensures-bind (Ensures-read_item 8) (λ buf (e, h). Ensures-return (u64_of buf) (u64_of-lt buf h))

pub Ensures-u32_within : Ensures SectionOfBytes (λ x. x < 2 ^ 32) u32_within
unfolding u32_within
Ensures-u32_within = Ensures-within_capacity 4 Ensures-read_u32

pub Ensures-u64_within : Ensures SectionOfBytes (λ x. x < 2 ^ 64) u64_within
unfolding u64_within
Ensures-u64_within = Ensures-within_capacity 8 Ensures-read_u64

pub Ensures-bigint_within :
    (fs : ℕ) → Ensures SectionOfBytes (λ v. length v ≡ fs) (bigint_within fs)
unfolding bigint_within read_bigint
Ensures-bigint_within fs =
    Ensures-within_capacity fs (Ensures-weaken (λ v (e, h). e) (Ensures-read_item fs))
