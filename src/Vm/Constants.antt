-- ===== src/Vm/Constants.antt =====
-- zirgen/circuit/rv32im/v2/platform/constants.h, as far as the machine uses it.
use zirgen.Prelude.{ℕ}

abbrev pub zero_page_end_word : ℕ
zero_page_end_word = 0x4000

abbrev pub kernel_start_addr : ℕ
kernel_start_addr = 0xc0000000

abbrev pub kernel_start_word : ℕ
kernel_start_word = 0x30000000

abbrev pub kernel_end_word : ℕ
kernel_end_word = 0x3fc00000

abbrev pub machine_regs_word : ℕ
machine_regs_word = 0x3fffc000

abbrev pub user_regs_word : ℕ
user_regs_word = 0x3fffc020

abbrev pub safe_write_word : ℕ
safe_write_word = 0x3fffc040

abbrev pub mepc_word : ℕ
mepc_word = 0x3fffc080

abbrev pub suspend_pc_word : ℕ
suspend_pc_word = 0x3fffc084

abbrev pub suspend_mode_word : ℕ
suspend_mode_word = 0x3fffc085

abbrev pub ecall_dispatch_word : ℕ
ecall_dispatch_word = 0x3fffc400

abbrev pub trap_dispatch_word : ℕ
trap_dispatch_word = 0x3fffc800

abbrev pub reg_a0 : ℕ
reg_a0 = 10

abbrev pub reg_a1 : ℕ
reg_a1 = 11

abbrev pub reg_a2 : ℕ
reg_a2 = 12

abbrev pub reg_a3 : ℕ
reg_a3 = 13

abbrev pub reg_a7 : ℕ
reg_a7 = 17

abbrev pub state_suspend : ℕ
state_suspend = 4

abbrev pub state_machine_ecall : ℕ
state_machine_ecall = 8

abbrev pub state_terminate : ℕ
state_terminate = 9

abbrev pub state_host_read_setup : ℕ
state_host_read_setup = 10

abbrev pub state_host_write : ℕ
state_host_write = 11

abbrev pub state_host_read_bytes : ℕ
state_host_read_bytes = 12

abbrev pub state_host_read_words : ℕ
state_host_read_words = 13

abbrev pub state_poseidon_entry : ℕ
state_poseidon_entry = 16

abbrev pub state_poseidon_load_state : ℕ
state_poseidon_load_state = 17

abbrev pub state_poseidon_load_in : ℕ
state_poseidon_load_in = 18

abbrev pub state_poseidon_do_out : ℕ
state_poseidon_do_out = 21

abbrev pub state_poseidon_store_state : ℕ
state_poseidon_store_state = 23

abbrev pub state_poseidon_ext_round : ℕ
state_poseidon_ext_round = 24

abbrev pub state_poseidon_int_round : ℕ
state_poseidon_int_round = 25

abbrev pub state_decode : ℕ
state_decode = 32
