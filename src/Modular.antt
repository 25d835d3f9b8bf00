-- ===== src/Modular.antt =====
-- Remainders of sums and products, for any modulus.
use native.Mathlib.Nat.{add-mul-mod_self_right, div-add-mod', mul_comm, add-mod}
use zirgen.Prelude.{ℕ, ◌+◌, ◌*◌, ◌/◌, ◌%◌, ◌≡◌, sym, ap, ◌∙◌, arith}

-- A factor may be reduced first.
pub mod-mul_left : (a b m : ℕ) → a % m * b % m ≡ a * b % m
mod-mul_left a b m =
    let whole : a % m * b + a / m * b * m ≡ a * b =
      omega (arith, ap (λ (t : ℕ). t * b) (div-add-mod' a m)) in
    sym (add-mul-mod_self_right (a % m * b) (a / m * b) m) ∙ ap (λ t. t % m) whole

pub mod-mul_right : (a b m : ℕ) → a * (b % m) % m ≡ a * b % m
mod-mul_right a b m =
    ap (λ t. t % m) (mul_comm a (b % m)) ∙ mod-mul_left b a m ∙ ap (λ t. t % m) (mul_comm b a)

pub mod-mul : (a b m : ℕ) → a % m * (b % m) % m ≡ a * b % m
mod-mul a b m = mod-mul_left a (b % m) m ∙ mod-mul_right a b m

-- Congruent factors and terms.
pub mul_congr : (a b c d m : ℕ) → a % m ≡ c % m → b % m ≡ d % m → a * b % m ≡ c * d % m
mul_congr a b c d m p q = sym (mod-mul a b m) ∙ (λ i. p i * q i % m) ∙ mod-mul c d m

pub add_congr : (a b c d m : ℕ) → a % m ≡ c % m → b % m ≡ d % m → (a + b) % m ≡ (c + d) % m
add_congr a b c d m p q = add-mod a b m ∙ (λ i. (p i + q i) % m) ∙ sym (add-mod c d m)
