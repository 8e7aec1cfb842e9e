-- ===== src/Base/Bits.antt =====
-- Masks and shifts of one byte as arithmetic; each is a table of at most 256 entries, checked by
-- evaluation.
use Prim.Native.Nat.{ℕ, zero, suc, ◌+◌, ◌*◌, ◌/◌, ◌%◌, ◌^◌, ◌<◌}
use mathlib.Core.Path.{◌≡◌, refl}
use mathlib.Core.Bool.{Bool, true, ◌&&◌}
use native.Mathlib.Omega.{arith}
use w_llm.Base.Tests.{◌==◌}
-- x & mask, x | y, x >> k
pub use Prim.Native.Nat.{bit_and, bit_or}

abbrev pub shift_right : ℕ → ℕ → ℕ
shift_right a k = a / 2 ^ k

abbrev pub shift_left : ℕ → ℕ → ℕ
shift_left a k = a * 2 ^ k

module _ (f g : ℕ → ℕ) where
  agree_below : ℕ → Bool
  agree_below zero = true
  agree_below (suc n) = let rest = agree_below n in (f n == g n) && rest

  agree_below→eq : (n : ℕ) → agree_below n ≡ true → (i : ℕ) → i < n → f i ≡ g i
  unfolding agree_below
  agree_below→eq zero e i h = absurd (omega arith)
  agree_below→eq (suc n) e i h = ground (arith, agree_below→eq n (ground arith) i)

pub low_nibble : (b : ℕ) → b < 256 → bit_and b 15 ≡ b % 16
unfolding agree_below
low_nibble = agree_below→eq _ _ 256 refl

pub low_pair : (b : ℕ) → b < 256 → bit_and b 3 ≡ b % 4
unfolding agree_below
low_pair = agree_below→eq _ _ 256 refl

-- Four low bits under two high ones.
pub six_bits : (a h : ℕ) → a < 16 → h < 4 → bit_or a (shift_left h 4) ≡ a + 16 * h
unfolding agree_below
six_bits a zero p q = agree_below→eq (λ x. bit_or x 0) (λ x. x + 16 * 0) 16 refl a p
six_bits a (suc zero) p q = agree_below→eq (λ x. bit_or x 16) (λ x. x + 16) 16 refl a p
six_bits a (suc (suc zero)) p q = agree_below→eq (λ x. bit_or x 32) (λ x. x + 32) 16 refl a p
six_bits a (suc (suc (suc zero))) p q = agree_below→eq (λ x. bit_or x 48) (λ x. x + 48) 16 refl a p
six_bits a (suc (suc (suc (suc h)))) p q = absurd (omega arith)
