-- ===== src/R1cs/Index/Search.antt =====
-- The search finds the first section of a type in a printed file, and its reader the body.
use zirgen.Prelude.{
  ℕ, ◌+◌, ◌^◌, ◌<◌, ◌≡◌, refl, ap, List, [], ◌∷◌, ◌++◌, length, arith, true, false, none, some,
  ◌==◌,
}
use zirgen.R1cs.Format.{
  Content, Fits, Offers, first_of, is_some, print_u32, print_u64, print_section, print_all,
  print_file, little_endian,
}
use zirgen.R1cs.Format.Laws.{length-print_u32, length-print_u64}
use zirgen.R1cs.Stream.{File, Reads, Capacity}
use native.Mathlib.Nat.{add-zero}
use mathlib.Core.Path.{subst}
use mathlib.Core.List.{append_assoc}
use zirgen.Prelude.{length-append, sym, ◌∙◌, Bool-cases, inl, inr}
use zirgen.Prelude.Result.{ok}
use zirgen.R1cs.Stream.Parses.{Parses, in_file, in_section, All}
use zirgen.R1cs.Index.{open_index, seek_to, is_present, whole_section, if_present}
use zirgen.R1cs.Index.Laws.{sections_from, Parses-open_index}

-- Where the search stops: the body is there, after all that comes before it in the file.
pub record Found (contents : List Content) (type : ℕ) (before : List ℕ) (body : List ℕ)
    : Type 0 where
  pub head : List ℕ
  pub tail : List ℕ
  pub split : before ++ print_all print_section contents ≡ head ++ (body ++ tail)
  pub sought :
      (bytes : List ℕ) (position : ℕ)
      → seek_to type (sections_from (length before) contents) (in_file bytes position)
        ≡ ok (length body, in_file bytes (length head))

module _ (t type : ℕ) (body' : List ℕ) (rest : List Content) (before : List ℕ) {body : List ℕ} where
  Found-here : (t == type) ≡ true → body' ≡ body → Found ((t, body') ∷ rest) type before body
  unfolding print_all print_section seek_to
  Found-here e same = record {
    head = before ++ (print_u32 t ++ print_u64 (length body'));
    tail = print_all print_section rest;
    split = simp (append_assoc, same) refl;
    sought = λ bytes position.
        let sizes = length-append before (print_u32 t ++ print_u64 (length body')) in
        let inner = length-append (print_u32 t) (print_u64 (length body')) in
        ground (arith, sizes, inner, length-print_u32 t, length-print_u64 (length body'), same);
  }

  Found-later :
      (t == type) ≡ false
      → Found rest type (before ++ print_section (t, body')) body
      → Found ((t, body') ∷ rest) type before body
  unfolding print_all seek_to
  Found-later e f = record {
    head = f.head;
    tail = f.tail;
    split =
        sym (append_assoc before (print_section (t, body')) (print_all print_section rest))
        ∙ f.split;
    sought = λ bytes position.
        let later =
          subst
            (λ place.
              seek_to type (sections_from place rest) (in_file bytes position)
              ≡ ok (length body, in_file bytes (length f.head)))
            (length-append before (print_section (t, body'))) (f.sought bytes position) in
        ground (arith, later);
  }

find :
    (contents : List Content) (type : ℕ) (before : List ℕ) {body : List ℕ}
    → first_of type contents ≡ some body
    → Found contents type before body
unfolding first_of
find [] type before h = cc
find ((t, body') ∷ rest) type before h = elim (Bool-cases (t == type)) [
  | inl e ↦ Found-here t type body' rest before e (let same : some body' ≡ some _ = rw e at h in cc)
  | inr e ↦
      Found-later t type body' rest before e
        (find rest type (before ++ print_section (t, body')) (rw e at h))
]

pub present :
    (contents : List Content) (type place : ℕ)
    → is_present type (sections_from place contents) ≡ is_some (first_of type contents)
unfolding first_of is_present
present [] type place = refl
present ((t, body) ∷ rest) type place =
    ground (arith, present rest type (place + length (print_section (t, body))))

-- In a printed file, which more bytes may follow.
module _ (magic version : ℕ) (contents : List Content) (after : List ℕ)
    (small : length (print_file magic version contents ++ after) < 2 ^ 63) where
  abbrev bytes : List ℕ
  bytes = print_file magic version contents ++ after

  abbrev before : List ℕ
  before = print_u32 magic ++ (print_u32 version ++ print_u32 (length contents))

  pub open_index-file :
      magic < 2 ^ 32
      → version < 2 ^ 32
      → 0 < length contents
      → length contents < 2 ^ 32
      → All Fits contents
      → open_index magic version (in_file bytes 0)
        ≡ ok (
          sections_from 12 contents,
          in_file bytes (0 + length (print_file magic version contents)),
        )
  open_index-file m v some_section n fits =
      let total = length-append (print_file magic version contents) after in
      (Parses-open_index magic version contents m v some_section n fits).takes [] after 0 refl
        (omega (arith, small, total))

  -- A reader that takes exactly a body off, wherever that stands, reads the first section of its
  -- type, wherever the file stands.
  pub whole_section-first :
      {A : Type 0} {m : Reads Capacity A} {a : A} (type : ℕ) {body : List ℕ}
      → first_of type contents ≡ some body
      → ((place : ℕ) → Parses in_section place m body a)
      → (position : ℕ)
      → (q : ℕ) × (whole_section type (sections_from 12 contents) m (in_file bytes position)
          ≡ ok (a, in_file bytes q))
  unfolding whole_section print_file print_u32 little_endian
  whole_section-first {m} {a} type {body} first p position =
      let f = find contents type before first in
      let same : bytes ≡ f.head ++ (body ++ (f.tail ++ after)) =
        ap (λ (t : List ℕ). t ++ after) f.split ∙ simp append_assoc refl in
      let total : length bytes ≡ length f.head + (length body + length (f.tail ++ after)) =
        ap length same ∙ simp length-append refl in
      let run =
        (p (length f.head)).takes f.head (f.tail ++ after) 0 refl (omega (arith, total, small)) in
      let run' : m (length body, in_file bytes (length f.head))
          ≡ ok (a, (0, in_file bytes (length f.head + length body))) =
        simp (add-zero, sym same) at run in
      (length f.head + length body, rw (f.sought bytes position, run') refl)

  pub if_present-missing :
      {A : Type 0} (type : ℕ) (m : Reads File (List A)) (f : File)
      → first_of type contents ≡ none
      → if_present type (sections_from 12 contents) m f ≡ ok ([], f)
  if_present-missing type m f missing = rw (present contents type 12, missing) refl

  -- So it does where the file may leave the section out.
  pub if_present-first :
      {A : Type 0} {m : Reads Capacity (List A)} {values : List A} (type : ℕ) {body : List ℕ}
      → Offers type contents body values
      → ((place : ℕ) → Parses in_section place m body values)
      → (position : ℕ)
      → (q : ℕ) × (if_present type
            (sections_from 12 contents)
            (whole_section type (sections_from 12 contents) m)
            (in_file bytes position)
          ≡ ok (values, in_file bytes q))
  if_present-first type (inl first) p position =
      let (q, e) = whole_section-first type first p position in
      (q, rw (present contents type 12, first) e)
  if_present-first type (inr (missing, empty)) p position =
      (position, rw (if_present-missing type _ (in_file bytes position) missing, empty) refl)
