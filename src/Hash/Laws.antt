-- ===== src/Hash/Laws.antt =====
-- The hash codes are polynomials in 31, in 32-bit arithmetic that wraps around, of code points.
use ignite_python_thin_clien.Base.{
  ℕ, ◌+◌, ◌-◌, ◌*◌, ◌%◌, ◌^◌, ◌<◌, ◌≡◌, refl, sym, ap, ◌∙◌, arith, List, [], ◌∷◌, ℤ, pos, negsuc,
  sub_ℕ, pos_part, neg_part, bit_and, bit_xor,
}
use Prim.Native.Nat.{bit_xor-bitwise}
use ignite_python_thin_clien.Base.Bytes.{wrap, signed, wrap-lt}
use ignite_python_thin_clien.Base.Bits.{bit_and_mask, xor_top, xor_mod, xor_complement, xor-lt}
use ignite_python_thin_clien.Hash.{
  xor_ℤ, and_ℤ, int_overflow, times31_plus, hash_chars, hashcode, text,
}

and_low : (a : ℕ) → bit_and a 0xffffffff ≡ a % 2 ^ 32
and_low a = bit_and_mask 32 a

zero-xor : (b : ℕ) → bit_xor 0 b ≡ b
zero-xor b = bit_xor-bitwise 0 b

ones : (y : ℕ) → y < 2 ^ 32 → bit_xor 0xffffffff y ≡ 0xffffffff - y
ones y h = xor_complement 32 0 y (omega arith) h ∙ rw (zero-xor y)

-- The low 32 bits of an exclusive or of an integer with a number below 2 ^ 32.
pub and_xor_ℤ : (z : ℤ) (b : ℕ) → b < 2 ^ 32 → and_ℤ (xor_ℤ z b) 0xffffffff ≡ bit_xor (wrap 4 z) b
unfolding wrap
and_xor_ℤ (pos a) b h =
    let small : b % 2 ^ 32 ≡ b = omega arith in and_low (bit_xor a b) ∙ xor_mod 32 a b ∙ rw small
and_xor_ℤ (negsuc a) b h =
    let small : b % 2 ^ 32 ≡ b = omega arith in
    let low : bit_and (bit_xor a b) 0xffffffff ≡ bit_xor (a % 2 ^ 32) b =
      and_low (bit_xor a b) ∙ xor_mod 32 a b ∙ rw small in
    rw low (
      ones (bit_xor (a % 2 ^ 32) b) (xor-lt 32 (a % 2 ^ 32) b (omega arith) h)
      ∙ sym (xor_complement 32 (a % 2 ^ 32) b (omega arith) h))

-- `int_overflow` is the signed value of the low 32 bits.
pub int_overflow_lem : (z : ℤ) → int_overflow z ≡ signed 4 (wrap 4 z)
unfolding int_overflow signed
int_overflow_lem z =
    rw (and_xor_ℤ z 0x80000000 (omega arith), xor_top 31 (wrap 4 z) (wrap-lt 4 z))
      (ground (arith, wrap-lt 4 z))

-- The low 32 bits of a difference.
wrap-sub_ℕ : (a b : ℕ) → wrap 4 (sub_ℕ a b) ≡ (a + (2 ^ 32 - b % 2 ^ 32)) % 2 ^ 32
unfolding wrap
wrap-sub_ℕ a b = ground arith

-- A step of the hash on the low 32 bits.
wrap_step :
    (u c : ℕ) → u < 2 ^ 32 → wrap 4 (times31_plus (signed 4 u) (pos c)) ≡ (31 * u + c) % 2 ^ 32
unfolding signed
wrap_step u c h =
    wrap-sub_ℕ (31 * pos_part (signed 4 u) + c) (31 * neg_part (signed 4 u) + 0) ∙ ground arith

-- The sum of the code points times powers of 31, without any wrap-around.
unfoldable pub polynomial : ℕ → List ℕ → ℕ
polynomial r [] = r
polynomial r (c ∷ cs) = polynomial (31 * r + c) cs

polynomial_mod :
    (r s : ℕ) (cs : List ℕ)
    → r % 2 ^ 32 ≡ s % 2 ^ 32
    → polynomial r cs % 2 ^ 32 ≡ polynomial s cs % 2 ^ 32
unfolding polynomial
polynomial_mod r s [] h = h
polynomial_mod r s (c ∷ cs) h = polynomial_mod (31 * r + c) (31 * s + c) cs (omega arith)

hash_chars_lem :
    (u : ℕ) (cs : List ℕ)
    → u < 2 ^ 32
    → hash_chars (signed 4 u) cs ≡ signed 4 (polynomial u cs % 2 ^ 32)
unfolding hash_chars polynomial
hash_chars_lem u [] h = let e : u % 2 ^ 32 ≡ u = omega arith in rw e
hash_chars_lem u (c ∷ cs) h =
    let v = (31 * u + c) % 2 ^ 32 in
    rw (int_overflow_lem (times31_plus (signed 4 u) (pos c)), wrap_step u c h)
      (hash_chars_lem v cs (omega arith)
        ∙ ap (signed 4) (polynomial_mod v (31 * u + c) cs (omega arith)))

-- The hash of a text is the polynomial of its code points, wrapped around once at the end.
pub hashcode_text : (cs : List ℕ) → hashcode (text cs) ≡ signed 4 (polynomial 0 cs % 2 ^ 32)
unfolding hashcode
hashcode_text cs = rw (← zero_signed) (hash_chars_lem 0 cs (omega arith))
  where
    zero_signed : signed 4 0 ≡ pos 0
    zero_signed = unfold signed in refl
