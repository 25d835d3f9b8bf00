-- ===== src/Lib.antt =====
-- Parts of zirgen and of the field arithmetic it stands on, as functions, with what makes them
-- correct. Paths are from the repository's root.
--
-- zirgen compiles arithmetic circuits for a STARK prover. Its own logic has these parts: the
-- reference semantics of RV32IM that the circuit is tested against, the prime field and its
-- extension in two implementations (Montgomery form for execution, plain residues for constant
-- folding), the helpers of the core, the lexer, the parser and the syntax tree of the Zirgen
-- language, the types and the arithmetic of its big integers, the hash of the proof system, the
-- readers of circom's files, and of the version 2 emulator the loader of programs, the memory image
-- with its Merkle tree, the paging and the machine.
--
-- Files:
--   * Prelude, Bits, Word, Modular: the shared names, the laws of bit operations and remainders,
--     `uint32_t` and `int32_t`.
--   * Rv32: zirgen/circuit/rv32im/shared/rv32im.h. Inst is ALL_INSTS, InstType and TrapCause;
--     Decode is DecodedInst; Table is FastDecodeTable; Context is what RV32Emulator asks of its
--     template parameter, as a record of operations, and Context/Base is BaseContext; Alu is the
--     switches of stepMisc, stepMul, stepDiv, stepLoad and stepStore, as functions of the operands;
--     Emulator is run, step and the step functions with their guards.
--   * Fp and FpExt: risc0/fp/fp.h and risc0/fp/fpext.h. The `constexpr` arithmetic on `val`, the
--     operators, pow and inv.
--   * Elf: risc0/core/elf.cpp. Memory is the function of the std::map that is filled. Start is
--     loadWithKernel and loadRaw of zirgen/circuit/rv32im/v2/emu/r0vm.h. Header and Load hold proofs.
--   * Util: risc0/core/util.h and util.cpp, the rounding functions and `divide_rv32im`.
--   * Zll: zirgen/Dialect/Zll/IR/Field.h and Field.cpp. Field is Field; Extension is ExtensionField,
--     with Inv and Div in Inverse.
--   * Lexer: zirgen/dsl/lexer.h and lexer.cpp. Token is the enumeration and the keywords; Reader is
--     the position in a buffer; State is the class Lexer with errors, imports and the preamble; Skip
--     is skipToNextToken and what it calls; Scan is the kinds of tokens; Take is takeToken, peekToken
--     and takeTokenIf. The text of an included file is a parameter.
--   * Ast: zirgen/dsl/ast.h and ast.cpp. Equal is the comparison of trees with its assertions, which the
--     options of .bazelrc keep; Print is their printer, which writes JSON.
--   * Parser: zirgen/dsl/parser.h and parser.cpp. Source is the class Parser over an interface of the
--     lexer, TokenSource; Precedence, Expression and Descent are the expressions and the blocks;
--     Declaration is components, imports, tests and the module; Instance fills the interface with the
--     lexer, and with a list of tokens. Grammar is no code of the repository: it says how expressions
--     are written, independently of the parser.
--   * BigInt: zirgen/Dialect/BigInt/IR. Types is BigIntType with its verifier and the inference of
--     Ops.cpp; Poly is add, sub and mul of Eval.cpp, and Carry its EqualZeroOp. Each sum and product
--     of `int32_t` is checked, so that an overflow, which C++ leaves undefined, is an error. Int is the
--     arithmetic of signed integers; ApInt is toAPInt, and the integers of LLVM are a parameter.
--   * Zkp: zirgen/compiler/zkp. Constants is poseidon2_consts.h without _M_EXT, Poseidon2 is
--     poseidon2.cpp without the generator, on lists of 24 cells.
--   * R1cs: zirgen/compiler/r1cs. Stream is the stream with the helpers of the class Reader, Index its
--     constructor up to the first section, seekTo and isPresent, for r1csfile.cpp and wtnsfile.cpp;
--     System is r1csfile.h and the rest of r1csfile.cpp, Witness those of wtnsfile. Format prints files
--     as their documents say and is no code of the repository.
--   * Emu: zirgen/circuit/rv32im/v2/emu. Image is MemoryImage without fromElfs, and Image/Words
--     its fromWords; Paging is PagedMemory without commit, readPaging and writePaging.
--     poseidonSponge is a parameter.
--   * Vm: zirgen/circuit/rv32im/v2/emu. Constants is platform/constants.h; Vm.antt and Traps, Io and
--     Machine are R0Context of r0vm.h, over a record of what it calls of its host; Poseidon is p2ECall
--     and p2Rest of p2.h; Exec is ExecContext and TestIoHandler of exec.cpp. User and Terminate hold
--     proofs.
--   * The modules called Laws, and those below Alu, Decode, Fp and Table, hold the proofs. The modules
--     called Tests hold runs and instances at concrete inputs.
--
-- Stateful code passes its state: a method of the emulator is a function from the context's state to
-- a result that is a value with the next state, or an error. What C++ leaves undefined in the
-- emulator is an error of its own.
--
-- Bounds: words are numbers below 2 ^ 32 with their wrap-around written out; 64-bit products are
-- taken modulo 2 ^ 64 where they may pass it. Loops recurse on fuel: pow has 64, the bits of its
-- exponent, and halves the exponent each time. The emulator's run has its budget of
-- steps. The loops of the lexer have as many rounds as there are characters left and one more; the
-- loop over a string literal returns an option, since it may not end. The descent of the
-- parser spends a unit of fuel on each call and each round of a loop, and returns an option. Walks
-- to the root of the Merkle tree halve an index, which bounds their rounds. The loop over a segment of
-- a program has a round for each word and two more, the loop that skips a section one for each 2 GB
-- and one more, and the loop over the words of a host read one for each byte and one more. The loops
-- of Inv and Div, and those of Util that multiply up to a bound, return an option.
--
-- Not modelled: the MLIR dialects and passes (their data structures belong to LLVM), the generated
-- circuits, the GPU kernels, the tools' input and output, and the Rust code.
pub mod Prelude
pub mod Bits
pub mod Word
pub mod Modular
pub mod Rv32
pub mod Fp
mod FieldTests
pub mod FpExt
pub mod Lexer
pub mod Zll
pub mod Emu
pub mod Util
pub mod Ast
pub mod Parser
pub mod BigInt
pub mod Zkp
pub mod R1cs
pub mod Vm
pub mod Elf
