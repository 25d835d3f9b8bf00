-- ===== src/Rv32/Table.antt =====
-- `FastDecodeTable` of zirgen/circuit/rv32im/shared/rv32im.h. The vector of 1 << 10 entries is a
-- list; `lookup` reads `invalid` outside of it, which `Table.Laws` shows never to happen.
pub mod Laws
use zirgen.Prelude.{
  ℕ, zero, suc, Option, none, some, List, [], ◌∷◌, bit_or, leb, ◌==◌, if◌then◌else◌, get_or, set,
  replicate,
}
use zirgen.Word.{shl32, shr}
use zirgen.Rv32.Inst.{InstType, invalid, Entry, all_insts}
use zirgen.Rv32.Decode.{DecodedInst}

abbrev pub Table : Type 0
Table = List InstType

-- `(opHigh << 5) | (func72bits << 3) | func3`
abbrev pub slot : ℕ → ℕ → ℕ → ℕ
slot op_high func72bits func3 = bit_or (bit_or (shl32 op_high 5) (shl32 func72bits 3)) func3

-- Map 0 -> 0, 1 -> 1, 0x20 -> 2, everything else to 3.
unfoldable pub func72bits : ℕ → ℕ
func72bits func7 = if leb func7 1 then func7 else (if func7 == 0x20 then 2 else 3)

unfoldable pub map10 : ℕ → ℕ → ℕ → ℕ
unfolding func72bits
map10 opcode func3 func7 = slot (shr opcode 2) (func72bits func7) func3

-- `for (f7b = 0; f7b < 4; f7b++)`, with `left` rounds left.
fill_func7 : ℕ → ℕ → ℕ → ℕ → InstType → Table → Table
fill_func7 zero f7b op_high f3 inst table = table
fill_func7 (suc left) f7b op_high f3 inst table =
    fill_func7 left (suc f7b) op_high f3 inst (set table (slot op_high f7b f3) inst)

-- `for (f3 = 0; f3 < 8; f3++)`
fill_func3 : ℕ → ℕ → ℕ → InstType → Table → Table
unfolding fill_func7
fill_func3 zero f3 op_high inst table = table
fill_func3 (suc left) f3 op_high inst table =
    fill_func3 left (suc f3) op_high inst (fill_func7 4 0 op_high f3 inst table)

add_inst : ℕ → Option ℕ → Option ℕ → InstType → Table → Table
unfolding fill_func3 fill_func7 map10
add_inst opcode none func7 inst table = fill_func3 8 0 (shr opcode 2) inst table
add_inst opcode (some func3) none inst table = fill_func7 4 0 (shr opcode 2) func3 inst table
add_inst opcode (some func3) (some func7) inst table = set table (map10 opcode func3 func7) inst

add_entries : List Entry → Table → Table
unfolding add_inst
add_entries [] table = table
add_entries (e ∷ rest) table = add_entries rest (add_inst e.opcode e.func3 e.func7 e.inst table)

-- The constructor: `table.resize(1 << 10, INVALID)`, then `addRV32IM`.
unfoldable pub fast_table : Table
unfolding add_entries
fast_table = add_entries all_insts (replicate 1024 invalid)

unfoldable pub lookup : DecodedInst → InstType
unfolding fast_table map10
lookup d = get_or fast_table (map10 d.opcode d.func3 d.func7) invalid
