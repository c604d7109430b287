-- ===== src/Affinity/Partition.antt =====
-- Which partition a hash code falls into.
use ignite_python_thin_clien.Base.{
  ℕ, zero, suc, ◌-◌, ◌*◌, ◌/◌, ◌%◌, ◌^◌, ◌<◌, ◌≤◌, ◌≡◌, ◌≢◌, refl, sym, ap, ◌∙◌, arith, ℤ, pos,
  negsuc, bit_and, bit_xor, le→ltb, lt→ltb, ◌==◌, true, false,
}
use ignite_python_thin_clien.Base.Bytes.{wrap}
use ignite_python_thin_clien.Base.Bits.{
  bit_and_mask, bit_and_pow, xor_mod, xor_complement, xor-lt, pow_two_pos, mod_mod_pow,
  complement_mod,
}
use Prim.Native.Nat.{bit_xor-bitwise}
use native.Mathlib.Nat.{mod-lt, le-div_iff_mul-le}
use ignite_python_thin_clien.Result.{ok, err, assertion_error}
use ignite_python_thin_clien.Hash.{xor_ℤ, and_ℤ}
use ignite_python_thin_clien.Affinity.{partition}

ones : (k y : ℕ) → y < 2 ^ k → bit_xor (2 ^ k - 1) y ≡ 2 ^ k - 1 - y
ones k y h =
    let z : 2 ^ k - 1 ≡ 2 ^ k - 1 - 0 = omega arith in
    ap (λ (t : ℕ). bit_xor t y) z ∙ xor_complement k 0 y (pow_two_pos k) h ∙ rw (zero-xor y)
  where
    zero-xor : (b : ℕ) → bit_xor 0 b ≡ b
    zero-xor b = bit_xor-bitwise 0 b

-- Masking an exclusive or of a Python integer is the same on its low 32 bits.
masked :
    (k : ℕ) (z : ℤ) (b : ℕ) → k ≤ 32 → and_ℤ (xor_ℤ z b) (2 ^ k - 1) ≡ bit_xor (wrap 4 z) b % 2 ^ k
unfolding wrap
masked k (pos a) b h =
    bit_and_mask k (bit_xor a b)
    ∙ xor_mod k a b
    ∙ rw (xor_mod k (a % 2 ^ 32) b, mod_mod_pow k 32 a h)
masked k (negsuc a) b h =
    let x = bit_xor (a % 2 ^ k) (b % 2 ^ k) in
    let lo = mod-lt a (pow_two_pos k) in
    let lo' = mod-lt b (pow_two_pos k) in
    rw (bit_and_mask k (bit_xor a b), xor_mod k a b)
      (ones k x (xor-lt k (a % 2 ^ k) (b % 2 ^ k) lo lo')
        ∙ sym (xor_complement k (a % 2 ^ k) (b % 2 ^ k) lo lo')
        ∙ rw (xor_mod k (2 ^ 32 - 1 - a % 2 ^ 32) b, complement_mod k 32 a h))

-- With a power of two of partitions, 2^32 at most, the assertion holds for every hash code, and the partition is
-- that of Java's `RendezvousAffinityFunction`, computed on the low 32 bits of the hash code: what the
-- data classes return beyond 32 bits does not matter.
pub partition_pow :
    (k : ℕ) (hashcode : ℤ)
    → k ≤ 32
    → partition (2 ^ k) hashcode ≡ ok (bit_xor (wrap 4 hashcode) (wrap 4 hashcode / 2 ^ 16) % 2 ^ k)
unfolding partition
partition_pow k z h =
    let test : (bit_and (2 ^ k) (2 ^ k - 1) == 0) ≡ true = rw (bit_and_pow k) in
    rw (
      test,
      masked k z (wrap 4 z / 2 ^ 16) h,
      lt→ltb (bit_xor (wrap 4 z) (wrap 4 z / 2 ^ 16) % 2 ^ k) (2 ^ k) (mod-lt _ (pow_two_pos k)),
    )

-- Where the quotient of a hash code that is not negative by a number of partitions that is no power of two is not below
-- that number, the assertion fails.
pub partition_fails :
    (parts a : ℕ)
    → bit_and parts (parts - 1) ≢ 0
    → parts * parts ≤ a
    → partition parts (pos a) ≡ err assertion_error
unfolding partition
partition_fails zero a odd big = absurd (odd refl)
partition_fails (suc n) a odd big =
    let parts = suc n in
    let test : (bit_and parts (parts - 1) == 0) ≡ false = ground arith in
    let large : parts ≤ a / parts = (le-div_iff_mul-le {k = parts} (omega arith)).1 big in
    rw (test, le→ltb (a / parts) parts large)
