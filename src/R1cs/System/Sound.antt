-- ===== src/R1cs/System/Sound.antt =====
-- What the readers of r1csfile.cpp return is well formed.
use mathlib.Core.Path.{subst}
use zirgen.Prelude.{◌≡◌, ◌⊎◌, inl, inr, refl, [], length, arith, bit_and, leb, ◌||◌, not, ◌==◌}
use zirgen.Bits.Mask.{bit_and-ones}
use zirgen.Prelude.Result.{ok, Post}
use zirgen.R1cs.Stream.{File, bad_field_size, bad_wire, missing_constraints}
use zirgen.R1cs.Stream.Parses.{All}
use zirgen.R1cs.Stream.Ensures.{
  OfBytes, SectionOfBytes, Ensures, Ensures-bind, Ensures-return, Ensures-check, Ensures-read_times,
  Ensures-weaken, Ensures-u32_within, Ensures-u64_within, Ensures-bigint_within,
}
use zirgen.R1cs.Index.Sound.{Ensures-open_index, Ensures-whole_section, Ensures-if_present}
use zirgen.R1cs.System.{
  Header, System, header_type, constraints_type, map_type, header_fields, read_header, read_factor,
  read_combination, read_constraint, read_constraints, read_map, read_system,
}
use zirgen.R1cs.System.Shape.{IsSystem, IsHeader, IsFactor, IsCombination, IsConstraint, IsLabel}

Ensures-header_fields : Ensures SectionOfBytes IsHeader header_fields
unfolding header_fields
Ensures-header_fields = Ensures-bind Ensures-u32_within (λ field_size fs.
    Ensures-check ((0 == field_size) || not (0 == bit_and field_size 7)) bad_field_size (λ passed.
      Ensures-bind (Ensures-bigint_within field_size) (λ prime p.
        Ensures-bind Ensures-u32_within (λ n_wires w.
          Ensures-bind Ensures-u32_within (λ n_pub_out po.
            Ensures-bind Ensures-u32_within (λ n_pub_in pi.
              Ensures-bind Ensures-u32_within (λ n_prv_in vi.
                Ensures-bind Ensures-u64_within (λ n_labels l.
                  Ensures-bind Ensures-u32_within (λ n_constraints c. Ensures-return _ (record {
                    field_size = fs;
                    not_empty = ground (arith, passed);
                    eights = ground (arith, passed, bit_and-ones 3 field_size);
                    prime = p;
                    n_wires = w;
                    n_pub_out = po;
                    n_pub_in = pi;
                    n_prv_in = vi;
                    n_labels = l;
                    n_constraints = c;
                  }))))))))))

module _ (h : Header) where
  Ensures-read_factor : Ensures SectionOfBytes (IsFactor h) (read_factor h)
  unfolding read_factor
  Ensures-read_factor = Ensures-bind Ensures-u32_within (λ index word.
      Ensures-check (leb h.n_wires index) bad_wire (λ passed.
        Ensures-bind (Ensures-bigint_within h.field_size)
          (λ value size. Ensures-return _ (word, ground (arith, passed), size))))

  Ensures-read_combination : Ensures SectionOfBytes (IsCombination h) (read_combination h)
  unfolding read_combination
  Ensures-read_combination = Ensures-bind Ensures-u32_within (λ n_idx word.
      Ensures-weaken (λ l (count, factors). (omega (arith, word, count), factors))
        (Ensures-read_times n_idx Ensures-read_factor))

  Ensures-read_constraint : Ensures SectionOfBytes (IsConstraint h) (read_constraint h)
  unfolding read_constraint
  Ensures-read_constraint = Ensures-bind Ensures-read_combination (λ a p.
      Ensures-bind Ensures-read_combination
        (λ b q. Ensures-bind Ensures-read_combination (λ c r. Ensures-return _ (p, q, r))))

Ensures-read_system : Ensures OfBytes IsSystem read_system
unfolding read_system read_header read_constraints read_map
Ensures-read_system = Ensures-bind (Ensures-open_index 0x73633172 1) (λ contents _.
    Ensures-bind (Ensures-whole_section header_type contents Ensures-header_fields) (λ h is.
      Ensures-bind {P = All (IsConstraint h)}
        (Ensures-if_present constraints_type contents
          (Ensures-weaken (λ cs (_, each). each)
            (Ensures-whole_section constraints_type contents
              (Ensures-read_times h.n_constraints (Ensures-read_constraint h))))
          tt)
        (λ constraints each.
          Ensures-check (not (length constraints == h.n_constraints)) missing_constraints (λ passed.
            Ensures-bind {P = λ map. ((length map ≡ h.n_wires) ⊎ (map ≡ [])) × All IsLabel map}
              (Ensures-if_present map_type contents
                (Ensures-weaken (λ map (count, labels). (inl count, labels))
                  (Ensures-whole_section map_type contents
                    (Ensures-read_times h.n_wires Ensures-u64_within)))
                (inr refl, tt))
              (λ map (count, labels). Ensures-return _ (record {
                header = is;
                constraints = each;
                n_constraints = ground (arith, passed);
                map = labels;
                n_wires = count;
              }))))))

-- What a file of bytes is read as, if it is read at all, is a well-formed system: there are as many
-- constraints as its header says, each of their wires is one of the header's wires, there is a label
-- for each wire or none at all, field elements have the field's size, and the numbers fit their words.
pub read_system-IsSystem :
    (f : File) {s : System} {g : File} → OfBytes f → read_system f ≡ ok (s, g) → IsSystem s
read_system-IsSystem f h e = (subst (Post _ _) e (Ensures-read_system.from f h)).0
