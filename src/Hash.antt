-- ===== src/Hash.antt =====
-- The hash codes of pyignite/utils.py and of the data classes, over Python's unbounded integers.
-- The pure Python versions are modelled; the C extension replaces two of them where it is built.
pub mod Laws
use ignite_python_thin_clien.Base.{
  ℕ, zero, suc, ◌+◌, ◌-◌, ◌*◌, ◌/◌, ◌%◌, ◌^◌, List, [], ◌∷◌, Bool, true, false, ℤ, pos, negsuc,
  sub_ℕ, pos_part, neg_part, bit_and, bit_xor, Option, none, some, if◌then◌else◌,
}
use ignite_python_thin_clien.Base.Bytes.{wrap, signed}

-- Python's `^` and `&` with a number, on two's complement without end: ~a ^ b is ~(a ^ b).
abbrev pub xor_ℤ : ℤ → ℕ → ℤ
xor_ℤ (pos a) b = pos (bit_xor a b)
xor_ℤ (negsuc a) b = negsuc (bit_xor a b)

abbrev pub and_ℤ : ℤ → ℕ → ℕ
and_ℤ (pos a) m = bit_and a m
and_ℤ (negsuc a) m = bit_xor m (bit_and a m)

-- a // p and abs(a)
abbrev pub floordiv : ℤ → ℕ → ℤ
floordiv (pos a) p = pos (a / p)
floordiv (negsuc a) p = negsuc (a / p)

abbrev pub abs : ℤ → ℕ
abs (pos a) = a
abs (negsuc a) = suc a

-- unsigned(value): `ctypes.c_uint(value).value`; with `c_ulonglong`, `k` is 8.
abbrev pub unsigned : ℕ → ℤ → ℕ
unsigned k z = wrap k z

-- ((value ^ 0x80000000) & 0xffffffff) - 0x80000000
unfoldable pub int_overflow : ℤ → ℤ
int_overflow z = sub_ℕ (and_ℤ (xor_ℤ z 0x80000000) 0xffffffff) 0x80000000

-- 31 * result + x
abbrev pub times31_plus : ℤ → ℤ → ℤ
times31_plus r x = sub_ℕ (31 * pos_part r + pos_part x) (31 * neg_part r + neg_part x)

-- The loop of the hash of a `str`, over its code points.
unfoldable pub hash_chars : ℤ → List ℕ → ℤ
unfolding int_overflow
hash_chars result [] = result
hash_chars result (c ∷ cs) = hash_chars (int_overflow (times31_plus result (pos c))) cs

-- The loop of the hash of bytes: each is read as a signed `c_byte`.
unfoldable pub hash_bytes : ℤ → List ℕ → ℤ
unfolding int_overflow signed
hash_bytes result [] = result
hash_bytes result (b ∷ bs) = hash_bytes (int_overflow (times31_plus result (signed 1 b))) bs

pub data Hashable : Type 0 where
  no_data : Hashable
  text : List ℕ → Hashable
  buffer : List ℕ → Hashable

-- hashcode(data)
unfoldable pub hashcode : Hashable → ℤ
unfolding hash_chars hash_bytes
hashcode no_data = pos 0
hashcode (text cs) = hash_chars (pos 0) cs
hashcode (buffer bs) = hash_bytes (pos 1) bs

-- A cache, or an entity, is given by its number or by its name.
pub data NameOrId : Type 0 where
  id : ℤ → NameOrId
  name : List ℕ → NameOrId

unfoldable pub cache_id : NameOrId → ℤ
unfolding hashcode
cache_id (id z) = z
cache_id (name cs) = hashcode (text cs)

-- LongObject.hashcode: value ^ (unsigned(value, c_ulonglong) >> 32)
unfoldable pub long_hashcode : ℤ → ℤ
long_hashcode z = xor_ℤ z (unsigned 8 z / 2 ^ 32)

-- BoolObject.hashcode
unfoldable pub bool_hashcode : Bool → ℤ
bool_hashcode true = pos 1231
bool_hashcode false = pos 1237

-- datetime_hashcode(value): (value & LONG_MASK) ^ (unsigned(value, c_ulonglong) >> 32)
unfoldable pub datetime_hashcode : ℤ → ℕ
datetime_hashcode z = bit_xor (and_ℤ z 0xffffffff) (unsigned 8 z / 2 ^ 32)
