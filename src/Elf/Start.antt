-- ===== src/Elf/Start.antt =====
-- `loadWithKernel` and `loadRaw` of zirgen/circuit/rv32im/v2/emu/r0vm.h, on what `loadFile` returns.
use mathlib.Core.Path.{subst}
use zirgen.Prelude.{ap, ◌∙◌, ℕ, ◌≡◌, refl, ==_iff, List, some}
use zirgen.Prelude.Result.{Result, ok, ◌>>=◌, Post, Post-bind}
use zirgen.Word.{sub32}
use zirgen.Emu.Image.{update}
use zirgen.R1cs.Stream.Parses.{All}
use zirgen.R1cs.Stream.Ensures.{IsByte}
use zirgen.Vm.Constants.{
  zero_page_end_word, kernel_start_word, kernel_end_word, mepc_word, suspend_pc_word,
  suspend_mode_word,
}
use zirgen.Elf.{ElfError, Memory, load_elf}
use zirgen.Elf.Laws.{IsThrown}
use zirgen.Elf.Header.{e_entry, IsEntry}
use zirgen.Elf.Load.{IsLoaded, load_elf-IsLoaded}

unfoldable pub load_with_kernel : List ℕ → List ℕ → Memory → Result ElfError Memory
unfolding load_elf
load_with_kernel kernel_elf user_elf words =
    load_elf user_elf words zero_page_end_word kernel_start_word >>= λ (user_entry, with_user).
    load_elf kernel_elf (update with_user mepc_word (sub32 user_entry 4)) kernel_start_word
      kernel_end_word
    >>= λ (kernel_entry, loaded).
        ok (update (update loaded suspend_pc_word kernel_entry) suspend_mode_word 1)

unfoldable pub load_raw : List ℕ → Memory → Result ElfError Memory
unfolding load_elf
load_raw elf words = load_elf elf words zero_page_end_word kernel_end_word >>= λ (entry, loaded).
    ok (update (update loaded suspend_pc_word entry) suspend_mode_word 1)

-- Where the machine starts: in machine mode at the entry of the kernel's header, and its MRET goes on
-- at the entry of the user program's.
pub record IsStarted (kernel_elf user_elf : List ℕ) (m : Memory) : Type 0 where
  pub user_inside : IsEntry zero_page_end_word kernel_start_word (e_entry user_elf)
  pub kernel_inside : IsEntry kernel_start_word kernel_end_word (e_entry kernel_elf)
  pub suspended : m suspend_pc_word ≡ some (e_entry kernel_elf)
  pub mode : m suspend_mode_word ≡ some 1
  pub returns : m mepc_word ≡ some (sub32 (e_entry user_elf) 4)

update_self : (m : Memory) (k v : ℕ) → update m k v k ≡ some v
update_self m k v = rw ((==_iff k k).1 refl) refl

-- Over any memory, for files of bytes, `loadWithKernel` returns or throws an exception other than
-- `endless`. When it returns, the word of MEPC is 4 before the entry point that the header of the
-- user's file has at its offset 24, the word of the suspended PC is the entry point of the kernel's
-- file, and that of the mode is 1; both entry points are aligned and in their regions.
pub load_with_kernel-IsStarted :
    (kernel_elf user_elf : List ℕ) (words : Memory)
    → All IsByte kernel_elf
    → All IsByte user_elf
    → Post (IsStarted kernel_elf user_elf) IsThrown (load_with_kernel kernel_elf user_elf words)
unfolding load_with_kernel
load_with_kernel-IsStarted kernel_elf user_elf words kernel_bytes user_bytes =
    Post-bind {P = IsLoaded user_elf zero_page_end_word kernel_start_word words}
      (IsStarted kernel_elf user_elf) IsThrown
      (load_elf user_elf words zero_page_end_word kernel_start_word) _
      (load_elf-IsLoaded user_elf words zero_page_end_word kernel_start_word user_bytes)
      λ (user_entry, with_user) (user_at, user_inside, user_words).
        let ready = update with_user mepc_word (sub32 user_entry 4) in
        Post-bind {P = IsLoaded kernel_elf kernel_start_word kernel_end_word ready}
          (IsStarted kernel_elf user_elf) IsThrown
          (load_elf kernel_elf ready kernel_start_word kernel_end_word) _
          (load_elf-IsLoaded kernel_elf ready kernel_start_word kernel_end_word kernel_bytes)
          (λ (kernel_entry, loaded) (kernel_at, kernel_inside, kernel_words). record {
            user_inside = subst (IsEntry zero_page_end_word kernel_start_word) user_at user_inside;
            kernel_inside =
                subst (IsEntry kernel_start_word kernel_end_word) kernel_at kernel_inside;
            suspended = ap some kernel_at;
            mode = refl;
            returns =
                kernel_words.kept mepc_word (sub32 user_entry 4)
                  (update_self with_user mepc_word (sub32 user_entry 4))
                ∙ ap (λ (e : ℕ). some (sub32 e 4)) user_at;
          })
