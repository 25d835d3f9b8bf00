-- ===== src/R1cs/Stream/Parses.antt =====
-- When a reader takes exactly the bytes of an encoding off the stream, wherever they stand in the
-- file, as long as an offset holds the place. The reader is one of a file or one of a section; `at` makes its state.
use mathlib.Core.Path.{subst}
use native.Mathlib.Nat.{add_assoc, add-zero, zero-add}
use mathlib.Core.List.{append_assoc}
use zirgen.Prelude.{
  ℕ, ◌+◌, ◌^◌, ◌<◌, ◌≡◌, refl, ap, Bool, false, List, [], ◌∷◌, ◌++◌, length, length-append, arith,
}
use zirgen.Prelude.Result.{ok}
use zirgen.R1cs.Format.{print_all}
use zirgen.R1cs.Stream.{
  File, Reads, Capacity, IoException, check, ◌>>◌, ◌>>=◌, return, take, drop, read_item,
  within_capacity, read_times,
}

abbrev pub in_file : List ℕ → ℕ → File
in_file bytes position = record { bytes = bytes; position = position; eof = false }

abbrev pub at_file : List ℕ → ℕ → ℕ → File
at_file bytes position capacity = in_file bytes position

abbrev pub in_section : List ℕ → ℕ → ℕ → Capacity
in_section bytes position capacity = (capacity, in_file bytes position)

pub record Parses {S A : Type 0} (at : List ℕ → ℕ → ℕ → S) (place : ℕ) (m : Reads S A)
    (code : List ℕ) (a : A) : Type 0 where
  pub takes :
      (before after : List ℕ) (capacity : ℕ)
      → length before ≡ place
      → place + length code < 2 ^ 63
      → m (at (before ++ (code ++ after)) place (length code + capacity))
        ≡ ok (a, at (before ++ (code ++ after)) (place + length code) capacity)

drop-append : (xs ys : List ℕ) → drop (length xs) (xs ++ ys) ≡ ys
drop-append [] ys = refl
drop-append (x ∷ xs) ys = drop-append xs ys

take-append : (xs ys : List ℕ) → take (length xs) (xs ++ ys) ≡ xs
take-append [] ys = refl
take-append (x ∷ xs) ys = ap (λ t. x ∷ t) (take-append xs ys)

module _ {S A : Type 0} {at : List ℕ → ℕ → ℕ → S} {place : ℕ} where
  pub Parses-return : (a : A) → Parses at place (return a) [] a
  Parses-return a = record {
    takes = λ before after capacity here fits. simp (add-zero, zero-add) refl;
  }

  pub Parses-bind :
      {B : Type 0} {m : Reads S A} (k : A → Reads S B) {code rest : List ℕ} {a : A} {b : B}
      → Parses at place m code a
      → Parses at (place + length code) (k a) rest b
      → Parses at place (m >>= k) (code ++ rest) b
  Parses-bind {m} k {code} {rest} {a} {b} p q = record {
    takes = λ before after capacity here fits.
        let whole = length-append code rest in
        let first =
          p.takes before (rest ++ after) (length rest + capacity) here (omega (arith, whole)) in
        let second =
          q.takes (before ++ code) after capacity (omega (arith, here, length-append before code))
            (omega (arith, whole)) in
        rw (append_assoc code rest after, whole, add_assoc, first, ◌>>=◌)
          (simp (append_assoc before code (rest ++ after), add_assoc) at second);
  }

  -- What follows the last read only builds a value.
  pub Parses-last :
      {B : Type 0} {m : Reads S A} {code : List ℕ} {a : A} (f : A → B)
      → Parses at place m code a
      → Parses at place (m >>= λ x. return (f x)) code (f a)
  Parses-last f p = record {
    takes = λ before after capacity here fits. rw (p.takes before after capacity here fits) refl;
  }

-- A step that reads nothing.
pub Parses-step :
    {S A B : Type 0} {at : List ℕ → ℕ → ℕ → S} {place : ℕ} (m : Reads S A) (k : A → Reads S B)
    {code : List ℕ} {a : A} {b : B}
    → ((before : List ℕ) (capacity : ℕ)
        → m (at before place capacity) ≡ ok (a, at before place capacity))
    → Parses at place (k a) code b
    → Parses at place (m >>= k) code b
Parses-step m k {code} still p = record {
  takes = λ before after capacity here fits.
      rw (still (before ++ (code ++ after)) (length code + capacity))
        (p.takes before after capacity here fits);
}

pub Parses-check :
    {S A : Type 0} {at : List ℕ → ℕ → ℕ → S} {place : ℕ} (cond : Bool) (e : IoException)
    {k : Reads S A} {code : List ℕ} {a : A}
    → cond ≡ false
    → Parses at place k code a
    → Parses at place (check cond e >> k) code a
Parses-check cond e {k} h p = Parses-step (check cond e) (λ _. k) (λ before capacity. rw h refl) p

pub Parses-read_item :
    {place : ℕ} (code : List ℕ) → Parses at_file place (read_item (length code)) code code
unfolding read_item
Parses-read_item code = record {
  takes = λ before after capacity here fits.
      let dropped = drop-append before (code ++ after) in
      let taken = take-append code after in
      let whole = length-append before (code ++ after) in
      let rest = length-append code after in
      subst
        (λ t.
          read_item (length code) (at_file (before ++ (code ++ after)) t 0)
          ≡ ok (code, at_file (before ++ (code ++ after)) (t + length code) 0))
        here (ground (arith, dropped, taken, whole, rest));
}

pub Parses-within_capacity :
    {A : Type 0} {place : ℕ} {m : Reads File A} {code : List ℕ} {a : A} (n : ℕ)
    → length code ≡ n
    → Parses at_file place m code a
    → Parses in_section place (within_capacity n m) code a
unfolding within_capacity
Parses-within_capacity n e p = record {
  takes = λ before after capacity here fits.
      let first = p.takes before after capacity here fits in ground (arith, first);
}

-- Every member of a list.
abbrev pub All : {A : Type 0} → (A → Type 0) → List A → Type 0
All P [] = Unit
All P (a ∷ rest) = P a × All P rest

pub Parses-read_times :
    {S A : Type 0} {at : List ℕ → ℕ → ℕ → S} {m : Reads S A} {P : A → Type 0} (print : A → List ℕ)
    → ((place : ℕ) (a : A) → P a → Parses at place m (print a) a)
    → (values : List A) → All P values
    → {place : ℕ} → Parses at place (read_times (length values) m) (print_all print values) values
unfolding read_times print_all
Parses-read_times print one [] h {place} = Parses-return []
Parses-read_times print one (a ∷ rest) (p, h) {place} =
    Parses-bind _ (one place a p) (Parses-last (λ t. a ∷ t) (Parses-read_times print one rest h))
