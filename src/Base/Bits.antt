-- ===== src/Base/Bits.antt =====
-- The bit operations of C on variables: each is fixed by its bits, so that a law of bits carries
-- over to numbers.
use Prim.Native.Nat.{
  ℕ, zero, suc, ◌+◌, ◌-◌, ◌*◌, ◌/◌, ◌%◌, ◌^◌, ◌≤◌, ◌<◌, min, max, digits, bitwise, differ, bit_and,
  bit_or, bit_xor, bit_and-bitwise, bit_or-bitwise, bit_xor-bitwise,
}
use mathlib.Core.Path.{◌≡◌, refl, sym}
use native.Mathlib.Nat.{pow-suc, one-le-pow, mod-add-div, div-div-eq-div-mul, mul_assoc}
use native.Mathlib.Omega.{arith}

-- Bit `i` of a number.
pub bit : ℕ → ℕ → ℕ
bit x zero = x % 2
bit x (suc i) = bit (x / 2) i

pub bit-le-one : (x i : ℕ) → bit x i ≤ 1
unfolding bit
bit-le-one x zero = omega arith
bit-le-one x (suc i) = bit-le-one (x / 2) i

bit_ext_fuel : (n a b : ℕ) → a ≤ n → b ≤ n → ((i : ℕ) → bit a i ≡ bit b i) → a ≡ b
unfolding bit
bit_ext_fuel zero a b p q h = omega arith
bit_ext_fuel (suc n) a b p q h =
    omega (arith, h 0, bit_ext_fuel n (a / 2) (b / 2) (omega arith) (omega arith) (λ i. h (suc i)))

-- Numbers with the same bits are equal.
pub bit_ext : (a b : ℕ) → ((i : ℕ) → bit a i ≡ bit b i) → a ≡ b
bit_ext a b h = bit_ext_fuel (a + b) a b (omega arith) (omega arith) h

-- The binary digits of two numbers, put together by `op`; past the first number, by `base`.
module _ (base : ℕ → ℕ) (op : ℕ → ℕ → ℕ) where
  -- Fuel beyond the first number changes nothing.
  digits_enough : (x y k l : ℕ) → x ≤ k → x ≤ l → digits base op k x y ≡ digits base op l x y
  digits_enough x y (suc k) (suc l) u v =
      elim x
          as (λ w.
            w ≤ suc k → w ≤ suc l → digits base op (suc k) w y ≡ digits base op (suc l) w y) [
              | zero ↦ λ _ _. refl
              | suc w ↦
                  λ g h. rw (digits_enough (suc w / 2) (y / 2) k l (omega arith) (omega arith))
            ]
        u v
  digits_enough zero y zero zero u v = refl
  digits_enough zero y zero (suc l) u v = refl
  digits_enough zero y (suc k) zero u v = refl
  digits_enough (suc x) y zero l u v = ground arith
  digits_enough (suc x) y (suc k) zero u v = ground arith

  bitwise_step :
      (x y : ℕ)
      → bitwise base op (suc x) y ≡ 2 * bitwise base op (suc x / 2) (y / 2) + op (suc x % 2) (y % 2)
  bitwise_step x y =
      let half = suc x / 2 in
      omega (arith, digits_enough half (y / 2) x half (omega arith) (omega arith))

bit_and_step : (x y : ℕ) → bit_and x y ≡ 2 * bit_and (x / 2) (y / 2) + min (x % 2) (y % 2)
bit_and_step (suc x) y = simp bit_and-bitwise (bitwise_step (λ _. 0) min x y)
bit_and_step zero y = simp bit_and-bitwise (omega arith)

bit_or_step : (x y : ℕ) → bit_or x y ≡ 2 * bit_or (x / 2) (y / 2) + max (x % 2) (y % 2)
bit_or_step (suc x) y = simp bit_or-bitwise (bitwise_step (λ t. t) max x y)
bit_or_step zero y = simp bit_or-bitwise (omega arith)

differ-eq : (a b : ℕ) → a ≤ 1 → b ≤ 1 → differ a b ≡ (a + b) % 2
differ-eq zero b p q = omega arith
differ-eq (suc zero) zero p q = refl
differ-eq (suc zero) (suc b) p q = let e : b ≡ 0 = omega arith in rw e refl
differ-eq (suc (suc a)) b p q = absurd (omega arith)

differ_step : (x y : ℕ) → bit_xor x y ≡ 2 * bit_xor (x / 2) (y / 2) + differ (x % 2) (y % 2)
differ_step (suc x) y = simp bit_xor-bitwise (bitwise_step (λ t. t) differ x y)
differ_step zero y = simp bit_xor-bitwise (omega arith)

bit_xor_step : (a b : ℕ) → bit_xor a b ≡ bit_xor (a / 2) (b / 2) * 2 + (a % 2 + b % 2) % 2
bit_xor_step a b =
    omega (arith, differ_step a b, differ-eq (a % 2) (b % 2) (omega arith) (omega arith))

pub bit-bit_and : (a b i : ℕ) → bit (bit_and a b) i ≡ min (bit a i) (bit b i)
unfolding bit
bit-bit_and a b zero = omega (arith, bit_and_step a b)
bit-bit_and a b (suc i) =
    let e : bit_and a b / 2 ≡ bit_and (a / 2) (b / 2) = omega (arith, bit_and_step a b) in
    rw e (bit-bit_and (a / 2) (b / 2) i)

pub bit-bit_or : (a b i : ℕ) → bit (bit_or a b) i ≡ max (bit a i) (bit b i)
unfolding bit
bit-bit_or a b zero = omega (arith, bit_or_step a b)
bit-bit_or a b (suc i) =
    let e : bit_or a b / 2 ≡ bit_or (a / 2) (b / 2) = omega (arith, bit_or_step a b) in
    rw e (bit-bit_or (a / 2) (b / 2) i)

pub bit-bit_xor : (a b i : ℕ) → bit (bit_xor a b) i ≡ (bit a i + bit b i) % 2
unfolding bit
bit-bit_xor a b zero = omega (arith, bit_xor_step a b)
bit-bit_xor a b (suc i) =
    let e : bit_xor a b / 2 ≡ bit_xor (a / 2) (b / 2) = omega (arith, bit_xor_step a b) in
    rw e (bit-bit_xor (a / 2) (b / 2) i)

-- All ones below bit `w`.
abbrev pub ones : ℕ → ℕ
ones w = 2 ^ w - 1

-- A number of `w` bits has no bit from `w` on.
pub bit_above : (w x i : ℕ) → x < 2 ^ w → w ≤ i → bit x i ≡ 0
unfolding bit
bit_above zero x zero h k = omega arith
bit_above zero x (suc i) h k =
    let e : x / 2 ≡ x = omega arith in rw e (bit_above zero x i h (omega arith))
bit_above (suc w) x zero h k = absurd (omega arith)
bit_above (suc w) x (suc i) h k = bit_above w (x / 2) i (omega (arith, pow-suc 2 w)) (omega arith)

pub bit-ones : (w i : ℕ) → i < w → bit (ones w) i ≡ 1
unfolding bit
bit-ones zero i h = absurd (omega arith)
bit-ones (suc w) zero h = omega (arith, pow-suc 2 w, one-le-pow w 2)
bit-ones (suc w) (suc i) h =
    let e : ones (suc w) / 2 ≡ ones w = omega (arith, pow-suc 2 w, one-le-pow w 2) in
    rw e (bit-ones w i (omega arith))

-- What fixes the bits of a word of `w` bits.
pub bit_ext_below :
    (w a b : ℕ) → a < 2 ^ w → b < 2 ^ w → ((i : ℕ) → i < w → bit a i ≡ bit b i) → a ≡ b
unfolding bit
bit_ext_below zero a b p q h = omega arith
bit_ext_below (suc w) a b p q h = omega (
  arith,
  pow-suc 2 w,
  h 0 (omega arith),
  bit_ext_below w (a / 2) (b / 2) (omega (arith, pow-suc 2 w)) (omega (arith, pow-suc 2 w))
      (λ i l. h (suc i) (omega arith)),
)

zero-bit_and : (b : ℕ) → bit_and 0 b ≡ 0
zero-bit_and b = bit_and-bitwise 0 b

pub bit-zero : (i : ℕ) → bit 0 i ≡ 0
unfolding bit
bit-zero zero = refl
bit-zero (suc i) = bit-zero i

-- The words of `w` bits are closed under the operations.
pub bit_and-lt : (w a b : ℕ) → a < 2 ^ w → bit_and a b < 2 ^ w
bit_and-lt zero a b h = let e : a ≡ 0 = omega arith in rw (e, zero-bit_and) (omega arith)
bit_and-lt (suc w) a b h = omega (
  arith,
  pow-suc 2 w,
  bit_and_step a b,
  bit_and-lt w (a / 2) (b / 2) (omega (arith, pow-suc 2 w)),
)

pub bit_or-lt : (w a b : ℕ) → a < 2 ^ w → b < 2 ^ w → bit_or a b < 2 ^ w
bit_or-lt zero a b h k =
    let e : a ≡ 0 = omega arith in let f : b ≡ 0 = omega arith in rw (e, f) (omega arith)
bit_or-lt (suc w) a b h k = omega (
  arith,
  pow-suc 2 w,
  bit_or_step a b,
  bit_or-lt w (a / 2) (b / 2) (omega (arith, pow-suc 2 w)) (omega (arith, pow-suc 2 w)),
)

pub bit_xor-lt : (w a b : ℕ) → a < 2 ^ w → b < 2 ^ w → bit_xor a b < 2 ^ w
bit_xor-lt zero a b h k =
    let e : a ≡ 0 = omega arith in let f : b ≡ 0 = omega arith in rw (e, f) (omega arith)
bit_xor-lt (suc w) a b h k = omega (
  arith,
  pow-suc 2 w,
  bit_xor_step a b,
  bit_xor-lt w (a / 2) (b / 2) (omega (arith, pow-suc 2 w)) (omega (arith, pow-suc 2 w)),
)

-- The bits of a combined word, for the proofs of laws.
pub ruleset bits = (arith, bit-le-one, bit-bit_and, bit-bit_or, bit-bit_xor, bit-zero)

pub bit_and_comm : (a b : ℕ) → bit_and a b ≡ bit_and b a
bit_and_comm a b = bit_ext _ _ (λ i. omega bits)

pub bit_and_assoc : (a b c : ℕ) → bit_and (bit_and a b) c ≡ bit_and a (bit_and b c)
bit_and_assoc a b c = bit_ext _ _ (λ i. omega bits)

pub bit_and_self : (a : ℕ) → bit_and a a ≡ a
bit_and_self a = bit_ext _ _ (λ i. omega bits)

pub bit_and-lt_right : (w a b : ℕ) → b < 2 ^ w → bit_and a b < 2 ^ w
bit_and-lt_right w a b h = rw (bit_and_comm a b) (bit_and-lt w b a h)

pub ones-lt : (w : ℕ) → ones w < 2 ^ w
ones-lt w = omega (arith, one-le-pow w 2)

mod_step : (m x : ℕ) → 1 ≤ m → x % (2 * m) ≡ x % 2 + 2 * (x / 2 % m)
mod_step m x h =
    let q = x / 2 / m in
    let e : x / (2 * m) ≡ q = sym (div-div-eq-div-mul x 2 m) in
    let a : x % (2 * m) + 2 * m * q ≡ x = rw (← e) (mod-add-div x (2 * m)) in
    omega (arith, a, mod-add-div (x / 2) m, mul_assoc 2 m q)

-- A mask of ones takes the remainder.
pub bit_and-ones : (w x : ℕ) → bit_and x (ones w) ≡ x % 2 ^ w
bit_and-ones zero x = rw (bit_and_comm x 0, zero-bit_and x) (omega arith)
bit_and-ones (suc w) x =
    let e : ones (suc w) / 2 ≡ ones w = omega (arith, pow-suc 2 w, one-le-pow w 2) in
    let p : ones (suc w) % 2 ≡ 1 = omega (arith, pow-suc 2 w, one-le-pow w 2) in
    let i : bit_and (x / 2) (ones (suc w) / 2) ≡ x / 2 % 2 ^ w = rw e (bit_and-ones w (x / 2)) in
    let d : 2 ^ suc w ≡ 2 * 2 ^ w = omega (arith, pow-suc 2 w) in
    let m : x % 2 ^ suc w ≡ x % 2 + 2 * (x / 2 % 2 ^ w) =
      rw d (mod_step (2 ^ w) x (one-le-pow w 2 (omega arith))) in
    omega (arith, m, bit_and_step x (ones (suc w)), i, p)
