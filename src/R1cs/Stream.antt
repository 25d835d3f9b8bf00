-- ===== src/R1cs/Stream.antt =====
-- The stream that `Reader` of r1csfile.cpp reads, its helpers, and the check that may throw. `FILE*`
-- is an ordinary file: its bytes, where it stands, and the mark of the end that a read may meet.
pub mod Parses
pub mod Ensures
use Prim.Native.String.{String}
use zirgen.Prelude.{
  ℕ, zero, suc, ◌+◌, ◌-◌, ◌*◌, ◌^◌, Bool, true, false, List, [], ◌∷◌, ltb, leb, if◌then◌else◌,
  bit_or, length, get_or,
}
use zirgen.Prelude.Result as Result
use zirgen.Prelude.Result.{Result, ok, throws}

-- The conditions that `check` is called with, each with the function that calls it.
pub data IoException : Type 0 where
  end_of_file short_read no_capacity no_section bad_seek : IoException
  bad_magic bad_version no_sections bad_field_size : IoException
  left_over bad_wire missing_constraints missing_values : IoException

pub record File : Type 0 where
  pub bytes : List ℕ
  pub position : ℕ
  pub eof : Bool

-- `S` is the file, or in a section the capacity that is left of it and the file.
abbrev pub Reads : Type 0 → Type 0 → Type 0
Reads S A = S → Result IoException (A × S)

abbrev pub Capacity : Type 0
Capacity = ℕ × File

infixl 5 ◌>>=◌ ◌>>◌
abbrev pub ◌>>=◌ : {S A B : Type 0} → Reads S A → (A → Reads S B) → Reads S B
◌>>=◌ m k s = Result.◌>>=◌ (m s) (λ (a, t). k a t)

abbrev pub ◌>>◌ : {S B : Type 0} → Reads S (Unit {0}) → Reads S B → Reads S B
m >> k = m >>= λ _. k

abbrev pub return : {S A : Type 0} → A → Reads S A
return a s = ok (a, s)

abbrev pub check : {S : Type 0} → Bool → IoException → Reads S (Unit {0})
check true e s = throws e
check false e s = ok (tt, s)

abbrev pub take : ℕ → List ℕ → List ℕ
take zero bs = []
take (suc n) [] = []
take (suc n) (b ∷ bs) = b ∷ take n bs

abbrev pub drop : ℕ → List ℕ → List ℕ
drop zero bs = bs
drop (suc n) [] = []
drop (suc n) (b ∷ bs) = drop n bs

-- `check(feof(stream))`, then one item of `n` bytes, which a file that ends early does not have.
unfoldable pub read_item : ℕ → Reads File (List ℕ)
read_item n f =
    if f.eof
    then throws end_of_file
    else (if leb (f.position + n) (length f.bytes)
        then ok (take n (drop f.position f.bytes), record f { position = f.position + n })
        else throws short_read)

-- `fsetpos` at a place that `fgetpos` gave, and `fseek` from where the file stands: an offset is an
-- `off_t` of 64 bits. Both take the mark of the end away.
abbrev pub set_position : ℕ → Reads File (Unit {0})
set_position p f = ok (tt, record f { position = p; eof = false })

abbrev pub seek : ℕ → Reads File (Unit {0})
seek n f =
    if ltb (f.position + n) (2 ^ 63)
    then ok (tt, record f { position = f.position + n; eof = false })
    else throws bad_seek

unfoldable pub u32_of : List ℕ → ℕ
u32_of buf =
    bit_or (bit_or (bit_or (get_or buf 0 0) (get_or buf 1 0 * 2 ^ 8)) (get_or buf 2 0 * 2 ^ 16))
      (get_or buf 3 0 * 2 ^ 24)

unfoldable pub u64_of : List ℕ → ℕ
u64_of buf =
    let b0 = get_or buf 0 0 in
    let b1 = bit_or b0 (get_or buf 1 0 * 2 ^ 8) in
    let b2 = bit_or b1 (get_or buf 2 0 * 2 ^ 16) in
    let b3 = bit_or b2 (get_or buf 3 0 * 2 ^ 24) in
    let b4 = bit_or b3 (get_or buf 4 0 * 2 ^ 32) in
    let b5 = bit_or b4 (get_or buf 5 0 * 2 ^ 40) in
    let b6 = bit_or b5 (get_or buf 6 0 * 2 ^ 48) in bit_or b6 (get_or buf 7 0 * 2 ^ 56)

unfoldable pub read_u32 : Reads File ℕ
unfolding read_item u32_of
read_u32 = do buf ← read_item 4; return (u32_of buf)

unfoldable pub read_u64 : Reads File ℕ
unfolding read_item u64_of
read_u64 = do buf ← read_item 8; return (u64_of buf)

-- `out.resize(fs())`, which the read then fills.
unfoldable pub read_bigint : ℕ → Reads File (List ℕ)
unfolding read_item
read_bigint fs = read_item fs

-- The test and the decrement that each reader of a section makes before it reads `n` bytes.
unfoldable pub within_capacity : {A : Type 0} → ℕ → Reads File A → Reads Capacity A
within_capacity n m (capacity, f) =
    if ltb capacity n
    then throws no_capacity
    else Result.◌>>=◌ (m f) (λ (a, g). ok (a, (capacity - n, g)))

unfoldable pub u32_within : Reads Capacity ℕ
unfolding within_capacity read_u32
u32_within = within_capacity 4 read_u32

unfoldable pub u64_within : Reads Capacity ℕ
unfolding within_capacity read_u64
u64_within = within_capacity 8 read_u64

unfoldable pub bigint_within : ℕ → Reads Capacity (List ℕ)
unfolding within_capacity read_bigint
bigint_within fs = within_capacity fs (read_bigint fs)

-- `for (uint32_t i = 0; i < count; ++i)`, with what each round reads in a list.
unfoldable pub read_times : {S A : Type 0} → ℕ → Reads S A → Reads S (List A)
read_times zero m = return []
read_times (suc n) m = do a ← m; rest ← read_times n m; return (a ∷ rest)
