-- ===== src/Base/Bytes.antt =====
-- Byte strings: `int.to_bytes`, `int.from_bytes` and two's complement, as CPython and ctypes have them.
use Prim.Native.Nat.{ℕ, zero, suc, ◌+◌, ◌-◌, ◌*◌, ◌/◌, ◌%◌, ◌^◌, ◌<◌, ◌≤◌}
use mathlib.Core.Path.{◌≡◌, refl, ap}
use mathlib.Core.List.{List, [], ◌∷◌}
use native.Mathlib.Omega.{arith}
use native.Mathlib.Nat.{pow-suc, mod-eq_of_lt}
use ignite_python_thin_clien.Base.Tests.{ltb, if◌then◌else◌}
use ignite_python_thin_clien.Base.Lists.{length, All}
use ignite_python_thin_clien.Base.Int.{ℤ, pos, negsuc}

abbrev pub IsByte : ℕ → Type 0
IsByte b = b < 256

-- The low `k` bytes of `n`, little-endian.
unfoldable pub le_bytes : ℕ → ℕ → List ℕ
le_bytes zero n = []
le_bytes (suc k) n = n % 256 ∷ le_bytes k (n / 256)

-- int.from_bytes(bs, 'little')
unfoldable pub from_bytes : List ℕ → ℕ
from_bytes [] = 0
from_bytes (b ∷ bs) = b + 256 * from_bytes bs

-- The value of `k` bytes, read as an unsigned number, in two's complement.
unfoldable pub signed : ℕ → ℕ → ℤ
signed k u = if ltb (2 * u) (256 ^ k) then pos u else negsuc (256 ^ k - 1 - u)

-- What an assignment of `z` to a C integer of `k` bytes stores.
unfoldable pub wrap : ℕ → ℤ → ℕ
wrap k (pos n) = n % 256 ^ k
wrap k (negsuc n) = 256 ^ k - 1 - n % 256 ^ k

pub length-le_bytes : (k n : ℕ) → length (le_bytes k n) ≡ k
unfolding le_bytes
length-le_bytes zero n = refl
length-le_bytes (suc k) n = ap suc (length-le_bytes k (n / 256))

pub from_bytes-le_bytes : (k n : ℕ) → n < 256 ^ k → from_bytes (le_bytes k n) ≡ n
unfolding le_bytes from_bytes
from_bytes-le_bytes zero n h = omega arith
from_bytes-le_bytes (suc k) n h =
    omega (arith, from_bytes-le_bytes k (n / 256) (omega (arith, pow-suc 256 k)))

pub le_bytes-IsByte : (k n : ℕ) → All IsByte (le_bytes k n)
unfolding le_bytes
le_bytes-IsByte zero n = tt
le_bytes-IsByte (suc k) n = (omega arith, le_bytes-IsByte k (n / 256))

pub pow_pos : (k : ℕ) → 0 < 256 ^ k
pow_pos zero = omega arith
pow_pos (suc k) = omega (arith, pow-suc 256 k, pow_pos k)

pub wrap-lt : (k : ℕ) (z : ℤ) → wrap k z < 256 ^ k
unfolding wrap
wrap-lt k (pos n) = grind (arith, pow_pos k)
wrap-lt k (negsuc n) = grind (arith, pow_pos k)

pub signed-wrap_pos : (k n : ℕ) → 2 * n < 256 ^ k → signed k (wrap k (pos n)) ≡ pos n
unfolding signed wrap
signed-wrap_pos k n h = rw (mod-eq_of_lt {n = n} {m = 256 ^ k} (omega arith)) (ground arith)

pub signed-wrap_negsuc : (k n : ℕ) → 2 * suc n ≤ 256 ^ k → signed k (wrap k (negsuc n)) ≡ negsuc n
unfolding signed wrap
signed-wrap_negsuc k n h = rw (mod-eq_of_lt {n = n} {m = 256 ^ k} (omega arith)) (ground arith)
