-- ===== src/Vm/Io.antt =====
-- `R0Context` of zirgen/circuit/rv32im/v2/emu/r0vm.h: what the host does for machine mode.
use zirgen.Prelude.{
  ℕ, zero, suc, ◌+◌, ◌-◌, ◌*◌, ◌/◌, ◌%◌, ◌^◌, min, Bool, false, not, List, [], ◌∷◌, length, get_or,
  ltb, ◌==◌, if◌then◌else◌, bit_and, bit_or,
}
use zirgen.Word.{add32, shl32}
use zirgen.Rv32.Context.{M, ◌>>=◌, ◌>>◌, return, raise, unless, wrapping_io, large_io}
use zirgen.Vm.{Host, Vm, lift, get_pc, set_pc, set_done, load_mem, store_mem, load_reg, store_reg}
use zirgen.Vm.Constants.{
  user_regs_word, safe_write_word, reg_a0, reg_a1, reg_a2, state_suspend, state_machine_ecall,
  state_terminate, state_host_read_setup, state_host_write, state_host_read_bytes,
  state_host_read_words, state_decode,
}

unfoldable pub next_state : ℕ → ℕ → ℕ
next_state ptr rlen =
    if rlen == 0
    then state_decode
    else (if not (ptr % 4 == 0)
        then state_host_read_bytes
        else (if ltb rlen 4 then state_host_read_bytes else state_host_read_words))

-- `ptr`, `i` and `rlen` of `doHostRead`.
pub record Cursor : Type 0 where
  pub ptr : ℕ
  pub i : ℕ
  pub rlen : ℕ

-- `word |= bytes[i + k] << (8 * k)` for `k` below 4.
unfoldable pub word_at : List ℕ → ℕ → ℕ
word_at bytes i =
    bit_or
      (bit_or (bit_or (get_or bytes i 0) (shl32 (get_or bytes (i + 1) 0) 8))
        (shl32 (get_or bytes (i + 2) 0) 16))
      (shl32 (get_or bytes (i + 3) 0) 24)

module _ {H : Type 0} (c : Host H) where
  abbrev ecall_cycle : ℕ → ℕ → ℕ → ℕ → ℕ → M (Vm H) (Unit {0})
  ecall_cycle cur next s0 s1 s2 = lift (c.ecall_cycle cur next s0 s1 s2)

  abbrev advance_pc : M (Vm H) (Unit {0})
  advance_pc = do pc ← get_pc; set_pc (add32 pc 4)

  unfoldable pub host_peek_byte : ℕ → M (Vm H) ℕ
  host_peek_byte addr = do
    val ← lift (c.host_peek (addr / 4))
    return (val / 2 ^ (bit_and addr 3 * 8) % 256)

  -- `~m` of a word is 2 ^ 32 - 1 - m.
  unfoldable pub write_byte : ℕ → ℕ → M (Vm H) (Unit {0})
  write_byte addr byte = do
    val ← load_mem c (addr / 4)
    let shift = bit_and addr 3 * 8
    let kept = bit_and val (0xffffffff - shl32 0xff shift)
    store_mem c (addr / 4) (bit_or kept (shl32 byte shift))

  unfoldable pub do_terminate : M (Vm H) Bool
  do_terminate = do
    ecall_cycle state_machine_ecall state_terminate 0 0 0
    set_done
    _ ← load_mem c (user_regs_word + reg_a0)
    _ ← load_mem c (user_regs_word + reg_a1)
    ecall_cycle state_terminate state_suspend 0 0 0
    return false

  -- `while (rlen > 0 && ptr % 4 != 0)`
  unfoldable pub read_bytes : List ℕ → ℕ → ℕ → ℕ → M (Vm H) Cursor
  unfolding write_byte
  read_bytes bytes ptr i zero = return (record { ptr = ptr; i = i; rlen = 0 })
  read_bytes bytes ptr i (suc rlen) =
      let more = read_bytes bytes (add32 ptr 1) (i + 1) rlen in
      if ptr % 4 == 0
      then return (record { ptr = ptr; i = i; rlen = suc rlen })
      else (write_byte ptr (get_or bytes i 0) >> more)

  -- The loop over `j`, with `left` rounds left; the three counters move on in each of them.
  unfoldable pub read_four : List ℕ → ℕ → ℕ → Cursor → M (Vm H) Cursor
  unfolding word_at
  read_four bytes words zero at = return at
  read_four bytes words (suc left) at =
      let more : M (Vm H) Cursor =
        read_four bytes words left
          (record { ptr = add32 at.ptr words; i = at.i + words; rlen = at.rlen - words }) in
      (if ltb (3 - left) words
        then store_mem c (at.ptr / 4) (word_at bytes at.i)
        else store_mem c safe_write_word 0)
      >> more

  -- `while (rlen >= 4)`, which takes four bytes at least in a round.
  unfoldable pub read_words : ℕ → List ℕ → ℕ → Cursor → M (Vm H) Cursor
  unfolding read_four next_state
  read_words zero bytes cur at = return at
  read_words (suc fuel) bytes cur at = if ltb at.rlen 4 then return at else (do
    next ← read_four bytes (min (at.rlen / 4) 4) 4 at
    if next.rlen == 0 then advance_pc else return tt
    ecall_cycle cur (next_state next.ptr next.rlen) (next.ptr / 4) (next.ptr % 4) next.rlen
    read_words fuel bytes (next_state next.ptr next.rlen) next)

  unfoldable pub do_host_read : M (Vm H) Bool
  unfolding load_reg store_reg next_state read_bytes read_words
  do_host_read = do
    ecall_cycle state_machine_ecall state_host_read_setup 0 0 0
    fd ← load_reg c reg_a0
    ptr ← load_reg c reg_a1
    len ← load_reg c reg_a2
    unless (ltb (add32 ptr len) ptr) (raise wrapping_io) (
        unless (ltb 1024 len) (raise large_io) (do
          bytes ← lift (c.read fd len)
          let rlen = length bytes
          store_reg c reg_a0 rlen
          if rlen == 0 then advance_pc else return tt
          ecall_cycle state_host_read_setup (next_state ptr rlen) (ptr / 4) (ptr % 4) rlen
          aligned ← read_bytes bytes ptr 0 rlen
          rest ← read_words (suc rlen) bytes (next_state ptr rlen) aligned
          _ ← read_bytes bytes rest.ptr rest.i rest.rlen
          return false))

  -- `bytes[i] = hostPeekByte(ptr + i)` for `i` below the count.
  unfoldable pub peek_bytes : ℕ → ℕ → M (Vm H) (List ℕ)
  unfolding host_peek_byte
  peek_bytes ptr zero = return []
  peek_bytes ptr (suc count) = do
    byte ← host_peek_byte ptr
    rest ← peek_bytes (add32 ptr 1) count
    return (byte ∷ rest)

  unfoldable pub do_host_write : M (Vm H) Bool
  unfolding load_reg store_reg peek_bytes
  do_host_write = do
    ecall_cycle state_machine_ecall state_host_write 0 0 0
    fd ← load_reg c reg_a0
    ptr ← load_reg c reg_a1
    len ← load_reg c reg_a2
    unless (ltb (add32 ptr len) ptr) (raise wrapping_io) (
        unless (ltb 1024 len) (raise large_io) (do
          bytes ← peek_bytes ptr len
          rlen ← lift (c.write fd bytes)
          store_reg c reg_a0 rlen
          advance_pc
          ecall_cycle state_host_write state_decode 0 0 0
          return false))
