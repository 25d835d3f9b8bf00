-- ===== src/Vm/Poseidon.antt =====
-- The call of Poseidon2 in zirgen/circuit/rv32im/v2/emu/p2.h, with the rounds of
-- zirgen/compiler/zkp/poseidon2.cpp that it interleaves with its cycles.
use zirgen.Prelude.{
  ℕ, zero, suc, ◌+◌, ◌*◌, ◌/◌, ◌^◌, Bool, not, List, leb, ◌==◌, if◌then◌else◌, bit_and, get_or, set,
  each, replicate,
}
use zirgen.Rv32.Context.{M, ◌>>=◌, ◌>>◌, return, raise, unless, check_failed}
use zirgen.Zkp.Constants.{rounds_half_full, rounds_partial}
use zirgen.Zkp.Poseidon2.{multiply_by_m_ext, full_poseidon2_round, partial_poseidon2_round}
use zirgen.Vm.{Host}
use zirgen.Vm.Constants.{
  machine_regs_word, reg_a0, reg_a1, reg_a2, reg_a3, state_poseidon_entry,
  state_poseidon_load_state, state_poseidon_load_in, state_poseidon_do_out,
  state_poseidon_store_state, state_poseidon_ext_round, state_poseidon_int_round, state_decode,
}

unfoldable pub do_ext_round : List ℕ → ℕ → List ℕ
unfolding full_poseidon2_round
do_ext_round cells idx =
    full_poseidon2_round cells (if leb rounds_half_full idx then idx + rounds_partial else idx)

unfoldable pub do_int_rounds : List ℕ → List ℕ
unfolding partial_poseidon2_round
do_int_rounds cells =
    each 0 rounds_partial (λ i now. partial_poseidon2_round now (rounds_half_full + i)) cells

-- `P2State`, without what only the trace records of it. `cur_state` is the variable of `p2Rest`, the
-- state that the next cycle is in.
pub record P2State : Type 0 where
  pub has_state : Bool
  pub state_addr : ℕ
  pub buf_out_addr : ℕ
  pub is_elem : Bool
  pub check_out : Bool
  pub buf_in_addr : ℕ
  pub count : ℕ
  pub cells : List ℕ
  pub cur_state : ℕ

module _ {H : Type 0} (c : Host H) where
  -- The closure `step`.
  unfoldable pub p2_step : ℕ → P2State → M H P2State
  p2_step next_state p2 = do
    c.p2_cycle p2.cur_state next_state
    return (record p2 { cur_state = next_state })

  -- `cells[first + i] = context.load(addr + i)` for `i` below the count.
  unfoldable pub load_cells : ℕ → ℕ → ℕ → P2State → M H P2State
  load_cells zero first addr p2 = return p2
  load_cells (suc count) first addr p2 = do
    word ← c.load addr
    load_cells count (first + 1) (addr + 1) (record p2 { cells = set p2.cells first word })

  -- `uint32_t word = context.load(p2.bufInAddr++)`, whose halves are two cells.
  unfoldable pub load_halves : ℕ → ℕ → P2State → M H P2State
  load_halves zero i p2 = return p2
  load_halves (suc count) i p2 = do
    word ← c.load p2.buf_in_addr
    let cells = set (set p2.cells (2 * i) (bit_and word 0xffff)) (2 * i + 1) (word / 2 ^ 16)
    load_halves count (i + 1) (record p2 { cells = cells; buf_in_addr = p2.buf_in_addr + 1 })

  abbrev skip_in : ℕ → P2State → P2State
  skip_in n p2 = record p2 { buf_in_addr = p2.buf_in_addr + n }

  unfoldable pub load_in : P2State → M H P2State
  unfolding p2_step load_cells load_halves
  load_in p2 =
      if p2.is_elem
      then (do
        low ← load_cells 8 0 p2.buf_in_addr p2
        stepped ← p2_step state_poseidon_load_in (skip_in 8 low)
        high ← load_cells 8 8 stepped.buf_in_addr stepped
        return (skip_in 8 high))
      else load_halves 8 0 p2

  unfoldable pub ext_rounds : ℕ → ℕ → P2State → M H P2State
  unfolding p2_step do_ext_round
  ext_rounds zero i p2 = return p2
  ext_rounds (suc count) i p2 = do
    stepped ← p2_step state_poseidon_ext_round p2
    ext_rounds count (i + 1) (record stepped { cells = do_ext_round stepped.cells i })

  unfoldable pub mix_cells : P2State → M H P2State
  unfolding p2_step ext_rounds do_int_rounds multiply_by_m_ext
  mix_cells p2 = do
    first ← ext_rounds 4 0 (record p2 { cells = multiply_by_m_ext p2.cells })
    stepped ← p2_step state_poseidon_int_round first
    ext_rounds 4 4 (record stepped { cells = do_int_rounds stepped.cells })

  -- `while (p2.count)`
  unfoldable pub absorb_all : ℕ → P2State → M H P2State
  unfolding p2_step load_in mix_cells
  absorb_all zero p2 = return p2
  absorb_all (suc count) p2 = do
    stepped ← p2_step state_poseidon_load_in p2
    loaded ← load_in stepped
    mixed ← mix_cells loaded
    absorb_all count (record mixed { count = count })

  -- The two loops over the eight cells of the result, which compare or store.
  unfoldable pub check_cells : ℕ → ℕ → ℕ → List ℕ → M H (Unit {0})
  check_cells zero i addr cells = return tt
  check_cells (suc count) i addr cells = do
    word ← c.load addr
    unless (not (word == get_or cells i 0)) (raise check_failed)
        (check_cells count (i + 1) (addr + 1) cells)

  unfoldable pub store_cells : ℕ → ℕ → ℕ → List ℕ → M H (Unit {0})
  store_cells zero i addr cells = return tt
  store_cells (suc count) i addr cells = do
    c.store addr (get_or cells i 0)
    store_cells count (i + 1) (addr + 1) cells

  unfoldable pub p2_rest : P2State → ℕ → M H (Unit {0})
  unfolding p2_step load_cells absorb_all check_cells store_cells
  p2_rest p2 final_state = do
    started ←
        (if p2.has_state
          then (do
            stepped ← p2_step state_poseidon_load_state p2
            load_cells 8 16 stepped.state_addr stepped)
          else return p2)
    absorbed ← absorb_all started.count started
    out ← p2_step state_poseidon_do_out absorbed
    if out.check_out
        then check_cells 8 0 out.buf_out_addr out.cells
        else store_cells 8 0 out.buf_out_addr out.cells
    last ←
        (if out.has_state
          then (do
            stepped ← p2_step state_poseidon_store_state (record out { buf_in_addr = 0 })
            store_cells 8 16 stepped.state_addr stepped.cells
            return stepped)
          else return out)
    _ ← p2_step final_state last
    return tt

  unfoldable pub p2_ecall : M H (Unit {0})
  unfolding p2_rest
  p2_ecall = do
    state ← c.load (machine_regs_word + reg_a0)
    buf_in ← c.load (machine_regs_word + reg_a1)
    buf_out ← c.load (machine_regs_word + reg_a2)
    bits_and_count ← c.load (machine_regs_word + reg_a3)
    let p2 : P2State = record {
      has_state = not (state / 4 == 0);
      state_addr = state / 4;
      buf_out_addr = buf_out / 4;
      is_elem = not (bit_and bits_and_count 0x80000000 == 0);
      check_out = not (bit_and bits_and_count 0x40000000 == 0);
      buf_in_addr = buf_in / 4;
      count = bit_and bits_and_count 0xffff;
      cells = replicate 24 0;
      cur_state = state_poseidon_entry;
    }
    p2_rest p2 state_decode
