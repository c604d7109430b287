-- ===== src/Types/Primitive/Laws.antt =====
-- What the packers of primitive values write, and when they refuse.
use ignite_python_thin_clien.Base.{ℕ, ◌≡◌, arith, true, ℤ, pos, negsuc}
use ignite_python_thin_clien.Base.Bytes.{wrap, signed, signed-wrap_pos, signed-wrap_negsuc}
use ignite_python_thin_clien.Types.Primitive.{in_range}

-- Reading back the two's complement of an integer in range gives the integer.
pub signed-wrap : (k : ℕ) (z : ℤ) → in_range k z ≡ true → signed k (wrap k z) ≡ z
signed-wrap k (pos n) h = signed-wrap_pos k n (ground arith)
signed-wrap k (negsuc n) h = signed-wrap_negsuc k n (ground arith)
