-- ===== src/Bignum/Exponent.antt =====
-- Powers modulo a number, and the power for half an exponent, for `bn_modexp` of kernel/net/tls_crypto.c.
use next_os.Prelude.{ℕ, zero, suc, ◌+◌, ◌*◌, ◌/◌, ◌%◌, ◌^◌, ◌≡◌, sym, ap, ◌∙◌, arith}
use native.Mathlib.Nat.{pow-suc, pow-zero, mul_comm}
use next_os.Bignum.Product.{mod_mul}

-- A power of a remainder.
pub mod_power : (x y k m : ℕ) → (x * (y % m) ^ k) % m ≡ (x * y ^ k) % m
mod_power x y zero m = ap (λ (t : ℕ). (x * t) % m) (pow-zero (y % m) ∙ sym (pow-zero y))
mod_power x y (suc k) m =
    let a = (y % m) ^ k in
    let front : x * (y % m) ^ suc k ≡ 0 + y % m * (x * a) =
      ap (λ (t : ℕ). x * t) (pow-suc (y % m) k) ∙ omega arith in
    let back : y * x * y ^ k ≡ x * y ^ suc k =
      omega arith ∙ ap (λ (t : ℕ). x * t) (sym (pow-suc y k)) in
    ap (λ (t : ℕ). t % m) front
    ∙ mod_mul 0 y (x * a) m
    ∙ ap (λ (t : ℕ). t % m) (omega arith)
    ∙ mod_power (y * x) y k m
    ∙ ap (λ (t : ℕ). t % m) back

pub mod_power_both : (x y k m : ℕ) → (x % m * (y % m) ^ k) % m ≡ (x * y ^ k) % m
mod_power_both x y k m =
    ap (λ (t : ℕ). t % m) (omega arith)
    ∙ mod_mul 0 x ((y % m) ^ k) m
    ∙ ap (λ (t : ℕ). t % m) (omega arith)
    ∙ mod_power x y k m

-- The square of the base for half the exponent.
square_power : (b k : ℕ) → b ^ (2 * k) ≡ (b * b) ^ k
square_power b zero = ap (λ (t : ℕ). b ^ t) (omega arith) ∙ pow-zero b ∙ sym (pow-zero (b * b))
square_power b (suc k) =
    let next : 2 * suc k ≡ suc (suc (2 * k)) = omega arith in
    let inner = pow-suc b (2 * k) in
    let outer = ap (λ (t : ℕ). t * b) inner in
    let halved = ap (λ (t : ℕ). t * b * b) (square_power b k) in
    ap (λ (t : ℕ). b ^ t) next
    ∙ pow-suc b (suc (2 * k))
    ∙ outer
    ∙ halved
    ∙ omega (arith, pow-suc (b * b) k)

pub even_power : (b e : ℕ) → e % 2 ≡ 0 → b ^ e ≡ (b * b) ^ (e / 2)
even_power b e even =
    let twice : e ≡ 2 * (e / 2) = omega arith in
    ap (λ (t : ℕ). b ^ t) twice ∙ square_power b (e / 2)

pub odd_power : (b e : ℕ) → e % 2 ≡ 1 → b ^ e ≡ b * (b * b) ^ (e / 2)
odd_power b e odd =
    let twice : e ≡ suc (2 * (e / 2)) = omega arith in
    ap (λ (t : ℕ). b ^ t) twice
    ∙ pow-suc b (2 * (e / 2))
    ∙ ap (λ (t : ℕ). t * b) (square_power b (e / 2))
    ∙ mul_comm ((b * b) ^ (e / 2)) b
