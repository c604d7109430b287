-- ===== src/Base/Bits.antt =====
-- Laws of the native bit operations that the hashes use, by recursion on binary digits.
use Prim.Native.Nat.{
  ℕ, zero, suc, ◌+◌, ◌-◌, ◌*◌, ◌/◌, ◌%◌, ◌^◌, ◌<◌, ◌≤◌, min, bit_and, bit_xor, digits, differ,
  bit_and-bitwise, bit_xor-bitwise,
}
use mathlib.Core.Path.{◌≡◌, refl, ap, sym, ◌∙◌}
use native.Mathlib.Omega.{arith}
use native.Mathlib.Nat.{
  pow-suc, div-add-mod, mod-lt, mod-eq_of_lt, mod_self, add-mul-mod_self_right,
}

module _ (z : ℕ → ℕ) (f : ℕ → ℕ → ℕ) where
  more_digits : (i j x y : ℕ) (low : x ≤ i) (high : x ≤ j) → digits z f i x y ≡ digits z f j x y
  more_digits zero j zero y low high = at_zero j
    where
      at_zero : (j : ℕ) → digits z f zero zero y ≡ digits z f j zero y
      at_zero zero = refl
      at_zero (suc j) = refl
  more_digits zero j (suc x) y low high = absurd (omega arith)
  more_digits (suc i) zero zero y low high = refl
  more_digits (suc i) (suc j) zero y low high = refl
  more_digits (suc i) zero (suc x) y low high = absurd (omega arith)
  more_digits (suc i) (suc j) (suc x) y low high =
      rw (more_digits i j (suc x / 2) (y / 2) (omega arith) (omega arith))

pub xor_digit : (a b : ℕ) → bit_xor a b ≡ bit_xor (a / 2) (b / 2) * 2 + differ (a % 2) (b % 2)
xor_digit zero b =
    omega (arith, bit_xor-bitwise 0 b, bit_xor-bitwise 0 (b / 2), differ_zero (b % 2))
  where
    differ_zero : (y : ℕ) → differ 0 y ≡ y
    differ_zero y = refl
xor_digit (suc a) b = omega (
  arith,
  bit_xor-bitwise (suc a) b,
  bit_xor-bitwise (suc a / 2) (b / 2),
  more_digits (λ y. y) differ a (suc a / 2) (suc a / 2) (b / 2) (omega arith) (omega arith),
)

pub and_digit : (a b : ℕ) → bit_and a b ≡ bit_and (a / 2) (b / 2) * 2 + min (a % 2) (b % 2)
and_digit zero b = omega (arith, bit_and-bitwise 0 b, bit_and-bitwise 0 (b / 2))
and_digit (suc a) b = omega (
  arith,
  more_digits (λ y. 0) min a (suc a / 2) (suc a / 2) (b / 2) (omega arith) (omega arith),
  bit_and-bitwise (suc a / 2) (b / 2),
  bit_and-bitwise (suc a) b,
)

-- The exclusive or of two binary digits.
differ_digits : (a b : ℕ) → a < 2 → b < 2 → differ a b ≡ (a + b) % 2
differ_digits zero b p q = omega arith
differ_digits (suc zero) zero p q = omega arith
differ_digits (suc zero) (suc zero) p q = refl
differ_digits (suc zero) (suc (suc b)) p q = absurd (omega arith)
differ_digits (suc (suc a)) b p q = absurd (omega arith)

pub xor_step : (a b : ℕ) → bit_xor a b ≡ bit_xor (a / 2) (b / 2) * 2 + (a % 2 + b % 2) % 2
xor_step a b =
    omega (arith, xor_digit a b, differ_digits (a % 2) (b % 2) (omega arith) (omega arith))

pub pow_two_pos : (k : ℕ) → 0 < 2 ^ k
pow_two_pos zero = omega arith
pow_two_pos (suc k) = omega (arith, pow-suc 2 k, pow_two_pos k)

xor_zero_fuel : (n a : ℕ) → a ≤ n → bit_xor a 0 ≡ a
xor_zero_fuel n zero h = refl
xor_zero_fuel zero (suc a) h = absurd (omega arith)
xor_zero_fuel (suc n) (suc a) h =
    omega (arith, xor_step (suc a) 0, xor_zero_fuel n (suc a / 2) (omega arith))

pub xor_zero : (a : ℕ) → bit_xor a 0 ≡ a
xor_zero a = xor_zero_fuel a a (omega arith)

pub xor-lt : (k a b : ℕ) → a < 2 ^ k → b < 2 ^ k → bit_xor a b < 2 ^ k
xor-lt zero a b ha hb =
    let za : a ≡ 0 = omega arith in let zb : b ≡ 0 = omega arith in rw (za, zb) (omega arith)
xor-lt (suc k) a b ha hb = omega (
  arith,
  xor_step a b,
  pow-suc 2 k,
  xor-lt k (a / 2) (b / 2) (omega (arith, pow-suc 2 k)) (omega (arith, pow-suc 2 k)),
)

-- One binary digit of a remainder.
pub mod_digit : (k a : ℕ) → a % 2 ^ suc k ≡ a / 2 % 2 ^ k * 2 + a % 2
mod_digit k a =
    let r = a / 2 % 2 ^ k in
    let q = a / 2 / 2 ^ k in
    let e : a ≡ r * 2 + a % 2 + q * 2 ^ suc k =
      omega (arith, div-add-mod (a / 2) (2 ^ k), ap (λ (t : ℕ). q * t) (pow-suc 2 k)) in
    let small : r * 2 + a % 2 < 2 ^ suc k =
      omega (arith, pow-suc 2 k, mod-lt (a / 2) (pow_two_pos k)) in
    ap (λ (t : ℕ). t % 2 ^ suc k) e
    ∙ add-mul-mod_self_right (r * 2 + a % 2) q (2 ^ suc k)
    ∙ mod-eq_of_lt small

and_zero_fuel : (n a : ℕ) → a ≤ n → bit_and a 0 ≡ 0
and_zero_fuel n zero h = refl
and_zero_fuel zero (suc a) h = absurd (omega arith)
and_zero_fuel (suc n) (suc a) h =
    omega (arith, and_digit (suc a) 0, and_zero_fuel n (suc a / 2) (omega arith))

-- A mask of `k` ones keeps the low `k` bits.
pub bit_and_mask : (k a : ℕ) → bit_and a (2 ^ k - 1) ≡ a % 2 ^ k
bit_and_mask zero a = omega (arith, and_zero_fuel a a (omega arith))
bit_and_mask (suc k) a =
    let half : (2 ^ suc k - 1) / 2 ≡ 2 ^ k - 1 = omega (arith, pow-suc 2 k, pow_two_pos k) in
    let odd : (2 ^ suc k - 1) % 2 ≡ 1 = omega (arith, pow-suc 2 k, pow_two_pos k) in
    and_digit a (2 ^ suc k - 1)
    ∙ rw (half, odd, bit_and_mask k (a / 2), mod_digit k a) (omega arith)

-- A power of two shares no bit with its predecessor.
pub bit_and_pow : (k : ℕ) → bit_and (2 ^ k) (2 ^ k - 1) ≡ 0
bit_and_pow k = bit_and_mask k (2 ^ k) ∙ mod_self (2 ^ k)

-- The low bits of an exclusive or are those of the low bits.
pub xor_mod : (k a b : ℕ) → bit_xor a b % 2 ^ k ≡ bit_xor (a % 2 ^ k) (b % 2 ^ k)
xor_mod zero a b =
    let za : a % 2 ^ 0 ≡ 0 = omega arith in
    let zb : b % 2 ^ 0 ≡ 0 = omega arith in rw (za, zb) (omega arith)
xor_mod (suc k) a b =
    let x = a % 2 ^ suc k in
    let y = b % 2 ^ suc k in
    let hx : x / 2 ≡ a / 2 % 2 ^ k = omega (arith, mod_digit k a) in
    let hy : y / 2 ≡ b / 2 % 2 ^ k = omega (arith, mod_digit k b) in
    let half : bit_xor a b / 2 ≡ bit_xor (a / 2) (b / 2) = omega (arith, xor_step a b) in
    let low : bit_xor a b % 2 ≡ (a % 2 + b % 2) % 2 = omega (arith, xor_step a b) in
    let dx : x % 2 ≡ a % 2 = omega (arith, mod_digit k a) in
    let dy : y % 2 ≡ b % 2 = omega (arith, mod_digit k b) in
    mod_digit k (bit_xor a b)
    ∙ rw (half, low, xor_mod k (a / 2) (b / 2), ← hx, ← hy, ← dx, ← dy) (sym (xor_step x y))

-- Complementing `w` bits of a number complements them in its exclusive or with another.
pub xor_complement :
    (w a b : ℕ) → a < 2 ^ w → b < 2 ^ w → bit_xor (2 ^ w - 1 - a) b ≡ 2 ^ w - 1 - bit_xor a b
xor_complement zero a b ha hb =
    let za : a ≡ 0 = omega arith in let zb : b ≡ 0 = omega arith in rw (za, zb)
xor_complement (suc w) a b ha hb =
    let c = 2 ^ suc w - 1 - a in
    let half : c / 2 ≡ 2 ^ w - 1 - a / 2 = omega (arith, pow-suc 2 w) in
    let low : c % 2 ≡ 1 - a % 2 = omega (arith, pow-suc 2 w) in
    let ih =
      xor_complement w (a / 2) (b / 2) (omega (arith, pow-suc 2 w)) (omega (arith, pow-suc 2 w)) in
    let below : bit_xor (a / 2) (b / 2) < 2 ^ w =
      xor-lt w (a / 2) (b / 2) (omega (arith, pow-suc 2 w)) (omega (arith, pow-suc 2 w)) in
    xor_step c b ∙ rw (half, low, ih) (omega (arith, pow-suc 2 w, xor_step a b))

-- Flipping the highest of `k + 1` bits.
pub xor_top : (k a : ℕ) → a < 2 ^ suc k → bit_xor a (2 ^ k) ≡ (a + 2 ^ k) % 2 ^ suc k
xor_top zero a h = omega (arith, xor_step a 1, xor_zero (a / 2))
xor_top (suc k) a h =
    let half : 2 ^ suc k / 2 ≡ 2 ^ k = omega (arith, pow-suc 2 k) in
    let even : 2 ^ suc k % 2 ≡ 0 = omega (arith, pow-suc 2 k) in
    let split : (a + 2 ^ suc k) / 2 ≡ a / 2 + 2 ^ k = omega (arith, pow-suc 2 k) in
    let digit : (a + 2 ^ suc k) % 2 ≡ a % 2 = omega (arith, pow-suc 2 k) in
    xor_step a (2 ^ suc k)
    ∙ rw
        (
          half,
          even,
          xor_top k (a / 2) (omega (arith, pow-suc 2 (suc k))),
          mod_digit (suc k) (a + 2 ^ suc k),
          split,
          digit,
        )
        (omega arith)

-- Of fewer bits of fewer bits the fewest are left.
pub mod_mod_pow : (k n a : ℕ) → k ≤ n → a % 2 ^ n % 2 ^ k ≡ a % 2 ^ k
mod_mod_pow zero n a h = omega arith
mod_mod_pow (suc k) zero a h = absurd (omega arith)
mod_mod_pow (suc k) (suc n) a h =
    let x = a % 2 ^ suc n in
    let half : x / 2 ≡ a / 2 % 2 ^ n = omega (arith, mod_digit n a) in
    let low : x % 2 ≡ a % 2 = omega (arith, mod_digit n a) in
    mod_digit k x ∙ rw (half, low, mod_mod_pow k n (a / 2) (omega arith)) (sym (mod_digit k a))

-- The low bits of a complement are the complement of the low bits.
pub complement_mod : (k n a : ℕ) → k ≤ n → (2 ^ n - 1 - a % 2 ^ n) % 2 ^ k ≡ 2 ^ k - 1 - a % 2 ^ k
complement_mod zero n a h = omega arith
complement_mod (suc k) zero a h = absurd (omega arith)
complement_mod (suc k) (suc n) a h =
    let c = 2 ^ suc n - 1 - a % 2 ^ suc n in
    let r = a / 2 % 2 ^ n in
    let below : r < 2 ^ n = mod-lt (a / 2) (pow_two_pos n) in
    let below' : a / 2 % 2 ^ k < 2 ^ k = mod-lt (a / 2) (pow_two_pos k) in
    let half : c / 2 ≡ 2 ^ n - 1 - r = omega (arith, mod_digit n a, pow-suc 2 n) in
    let low : c % 2 ≡ 1 - a % 2 = omega (arith, mod_digit n a, pow-suc 2 n) in
    mod_digit k c
    ∙ rw (half, low, complement_mod k n (a / 2) (omega arith))
        (omega (arith, mod_digit k a, pow-suc 2 k))
