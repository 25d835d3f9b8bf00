-- ===== src/Rv32/Table/Laws.antt =====
-- The decoding table against a search of the instruction list.
use zirgen.Prelude.{
  ℕ, zero, suc, ◌+◌, ◌*◌, ◌/◌, ◌%◌, ◌<◌, ◌≢◌, ◌≡◌, refl, ap, ◌∙◌, Bool, true, ◌&&◌, ◌||◌, Option,
  none, some, List, [], ◌∷◌, arith, bit_or, leb, ◌==◌, if◌then◌else◌, get_or,
}
use zirgen.Bits.Mask.{bit_or_low}
use zirgen.Word.{shl32}
use zirgen.Rv32.Inst.{InstType, invalid, mret, Entry, all_insts}
use zirgen.Rv32.Decode.{DecodedInst}
use zirgen.Rv32.Table.{slot, func72bits, map10, fast_table, lookup}

abbrev matches : Option ℕ → ℕ → Bool
matches none v = true
matches (some w) v = v == w

-- The first entry of a list that an instruction's fields match.
unfoldable pub search_insts : List Entry → ℕ → ℕ → ℕ → InstType
search_insts [] opcode func3 func7 = invalid
search_insts (e ∷ rest) opcode func3 func7 =
    if opcode == e.opcode && (matches e.func3 func3 && matches e.func7 func7)
    then e.inst
    else search_insts rest opcode func3 func7

tabulate {ℓ} : {A : Type ℓ} → ℕ → ℕ → (ℕ → A) → List A
tabulate zero i f = []
tabulate (suc n) i f = f i ∷ tabulate n (suc i) f

get_or-tabulate {ℓ} :
    {A : Type ℓ} (n i j : ℕ) (f : ℕ → A) (d : A) → j < n → get_or (tabulate n i f) j d ≡ f (i + j)
unfolding tabulate
get_or-tabulate zero i j f d h = absurd (omega arith)
get_or-tabulate (suc n) i zero f d h = ap f (omega arith)
get_or-tabulate (suc n) i (suc j) f d h =
    get_or-tabulate n (suc i) j f d (omega arith) ∙ ap f (omega arith)

-- The `func7` that stands for each of the four values of its two bits.
abbrev representative : ℕ → ℕ
representative b = if leb b 1 then b else (if b == 2 then 0x20 else 0x18)

entry_at : ℕ → InstType
entry_at i = search_insts all_insts (i / 32 * 4 + 3) (i % 8) (representative (i / 8 % 4))

fast_table_lem : fast_table ≡ tabulate 1024 0 entry_at
unfolding fast_table tabulate search_insts entry_at
fast_table_lem = refl

func72bits-lt : (func7 : ℕ) → func72bits func7 < 4
unfolding func72bits
func72bits-lt func7 = ground arith

slot_sum : (h b f : ℕ) → h < 32 → b < 4 → f < 8 → slot h b f ≡ h * 32 + b * 8 + f
slot_sum h b f p q r =
    let high = bit_or_low 5 (shl32 h 5) (shl32 b 3) (omega arith) (omega arith) in
    ground (arith, high, bit_or_low 3 (bit_or (shl32 h 5) (shl32 b 3)) f)

-- The index is within the table.
pub map10_sum :
    (opcode func3 func7 : ℕ)
    → opcode < 128
    → func3 < 8
    → map10 opcode func3 func7 ≡ opcode / 4 * 32 + func72bits func7 * 8 + func3
unfolding map10
map10_sum opcode func3 func7 p q =
    slot_sum (opcode / 4) (func72bits func7) func3 (omega arith) (func72bits-lt func7) q

entry_at-slot :
    (opcode func3 b : ℕ)
    → opcode % 4 ≡ 3
    → func3 < 8
    → b < 4
    → entry_at (opcode / 4 * 32 + b * 8 + func3)
      ≡ search_insts all_insts opcode func3 (representative b)
unfolding entry_at
entry_at-slot opcode func3 b p q r =
    let i = opcode / 4 * 32 + b * 8 + func3 in
    let op : i / 32 * 4 + 3 ≡ opcode = omega arith in
    let f3 : i % 8 ≡ func3 = omega arith in
    let f7 : i / 8 % 4 ≡ b = omega arith in
    λ j. search_insts all_insts (op j) (f3 j) (representative (f7 j))

-- What the table takes `func7` for: 0, 1 and 0x20, and 0x18 for every other value.
abbrev pub taken_for : ℕ → ℕ
taken_for func7 = if (func7 == 0) || ((func7 == 1) || (func7 == 0x20)) then func7 else 0x18

representative_lem : (func7 : ℕ) → representative (func72bits func7) ≡ taken_for func7
unfolding func72bits
representative_lem func7 = ground arith

-- For an instruction whose opcode ends in the bits 11, which `step` has tested, the look-up in the
-- table of 1024 entries gives the first entry of the instruction list whose opcode, `func3` and `func7`
-- are those of the instruction, or are left open, where a `func7` other than 0, 1 and 0x20 counts as
-- 0x18; and INVALID if there is none.
pub lookup-search_insts :
    (d : DecodedInst)
    → d.opcode < 128
    → d.opcode % 4 ≡ 3
    → d.func3 < 8
    → lookup d ≡ search_insts all_insts d.opcode d.func3 (taken_for d.func7)
unfolding lookup
lookup-search_insts d p q r =
    let i = map10 d.opcode d.func3 d.func7 in
    let sum = map10_sum d.opcode d.func3 d.func7 p r in
    let b = func72bits-lt d.func7 in
    ap (λ t. get_or t i invalid) fast_table_lem
    ∙ get_or-tabulate 1024 0 i entry_at invalid (omega arith)
    ∙ ap entry_at (omega arith)
    ∙ entry_at-slot d.opcode d.func3 (func72bits d.func7) q r b
    ∙ ap (λ (f : ℕ). search_insts all_insts d.opcode d.func3 f) (representative_lem d.func7)

-- The index of `table` is within its 1 << 10 entries, for all fields of a decoded word.
pub map10-lt : (opcode func3 func7 : ℕ) → opcode < 128 → func3 < 8 → map10 opcode func3 func7 < 1024
map10-lt opcode func3 func7 p q =
    omega (arith, map10_sum opcode func3 func7 p q, func72bits-lt func7)

taken_for_other : (func7 : ℕ) → 1 < func7 → func7 ≢ 0x20 → taken_for func7 ≡ 0x18
taken_for_other func7 p q = ground (arith, q)

at_mret : search_insts all_insts 0x73 0 0x18 ≡ mret
unfolding search_insts
at_mret = refl

-- MRET is decoded from each word of its opcode and `func3` whose `func7` is not 0, 1 or 0x20,
-- though the instruction list has it at 0x18 alone.
pub lookup_any_mret :
    (d : DecodedInst)
    → d.opcode ≡ 0x73
    → d.func3 ≡ 0
    → 1 < d.func7
    → d.func7 ≢ 0x20
    → lookup d ≡ mret
lookup_any_mret d p q r s =
    let b = taken_for_other d.func7 r s in
    lookup-search_insts d (omega arith) (omega arith) (omega arith)
    ∙ (λ i. search_insts all_insts (p i) (q i) (b i))
    ∙ at_mret
