-- ===== src/Query.antt =====
-- `CacheInfo` and `Query` of pyignite/queries/query.py, and pyignite/datatypes/expiry_policy.py.
-- The random number that stands for a query's id, and the types of the fields, are parameters.
pub mod Laws
use ignite_python_thin_clien.Base.{
  ℕ, zero, suc, ◌+◌, ◌-◌, Bool, true, false, List, [], ◌∷◌, ◌++◌, length, if◌then◌else◌, ℤ, pos,
  negsuc, Option, none, some, ltb_ℤ, eq_ℤ, ◌&&◌, ◌||◌, not, eq_ℤ, ltb, leb, ◌==◌,
}
use ignite_python_thin_clien.Base.Bytes.{le_bytes, wrap, from_bytes}
use ignite_python_thin_clien.Base.Dict.{Dict, get, nat_eq}
use ignite_python_thin_clien.Result.{
  Result, ok, err, type_error, key_error, value_error, overflow_error, not_supported_error, ◌>>=◌,
  ◌>>◌, guard,
}
use ignite_python_thin_clien.Stream.{Stream, tell, seek_cur, seek_set, write, slice}
use ignite_python_thin_clien.Ctypes.{
  CType, CObject, int, get_int, value, element, c_byte, c_short, c_int, c_longlong, struct, field,
  end, sizeof, length_attr, op_code, query_id,
}
use ignite_python_thin_clien.Types.Primitive.{in_range}
use ignite_python_thin_clien.Value.{Value}
use ignite_python_thin_clien.Connection.Protocol.{ProtocolContext, is_expiry_policy_supported}

-- ExpiryPolicy, of durations that are integers.
pub record ExpiryPolicy : Type 0 where
  pub create : ℤ
  pub update : ℤ
  pub access : ℤ

abbrev pub unchanged : ℤ
unchanged = negsuc 1

abbrev pub eternal : ℤ
eternal = negsuc 0

-- _positive: no other negative duration is accepted.
unfoldable pub positive : ℤ → Result (Unit {0})
positive d = guard (not (ltb_ℤ d (pos 0) && not (eq_ℤ d unchanged || eq_ℤ d eternal))) value_error

-- ExpiryPolicy(create=c, update=u, access=a)
unfoldable pub new_policy : ℤ → ℤ → ℤ → Result ExpiryPolicy
unfolding positive
new_policy c u a =
    positive c >> (positive u >> (positive a >> ok (record { create = c; update = u; access = a })))

-- z.to_bytes(k, 'little', signed=True)
unfoldable pub to_signed_bytes : ℕ → ℤ → Result (List ℕ)
to_signed_bytes k z = if in_range k z then ok (le_bytes k (wrap k z)) else err overflow_error

unfoldable pub write_duration : Stream → ℤ → Result Stream
unfolding to_signed_bytes
write_duration s d = do bs ← to_signed_bytes 8 d; ok (write s bs)

unfoldable pub write_policy : Stream → ExpiryPolicy → Result Stream
unfolding write_duration
write_policy s p = do
  s1 ← write_duration s p.create
  s2 ← write_duration s1 p.update
  write_duration s2 p.access

pub record CacheInfo : Type 0 where
  pub cache_id : ℤ
  pub expiry_policy : Option ExpiryPolicy
  pub protocol_context : ProtocolContext

-- CacheInfo.from_python(stream, value); a value may be None.
unfoldable pub write_cache_info : Stream → Option CacheInfo → Result Stream
unfolding to_signed_bytes write_policy
write_cache_info s none = do bs ← to_signed_bytes 4 (pos 0); ok (write (write s bs) (0 ∷ []))
write_cache_info s (some info) = do
  bs ← to_signed_bytes 4 info.cache_id
  elim info.expiry_policy [
    | none ↦ ok (write (write s bs) (0 ∷ []))
    | some p ↦
        guard (is_expiry_policy_supported info.protocol_context) not_supported_error
        >> write_policy (write (write s bs) (4 ∷ [])) p
  ]

-- A member of `following`: a name, and `c_type.from_python`, for parameters of a type `V`.
pub record Field {ℓ} (V : Type ℓ) : Type ℓ where
  pub name : ℕ
  pub from_python : Stream → V → Result Stream

pub record Query {ℓ} (V : Type ℓ) : Type ℓ where
  pub op_code : ℕ
  pub following : List (Field V)
  pub query_id : Option ℤ

-- Query.build_c_type()
unfoldable pub header_c_type : CType
header_c_type =
    struct (field length_attr c_int (field op_code c_short (field query_id c_longlong end)))

-- The structure's members, which are 0 until they are assigned.
pub record Header : Type 0 where
  pub length : ℤ
  pub op_code : ℤ
  pub query_id : ℤ

unfoldable pub header_bytes : Header → List ℕ
header_bytes h =
    le_bytes 4 (wrap 4 h.length)
    ++ (le_bytes 2 (wrap 2 h.op_code) ++ le_bytes 8 (wrap 8 h.query_id))

-- _build_header(stream), where `random` is what `randint` gives.
unfoldable pub build_header {ℓ} : {V : Type ℓ} → Query V → ℤ → Stream → Header × Stream
unfolding header_c_type
build_header q random s = (
  record {
    length = pos 0;
    op_code = pos q.op_code;
    query_id = elim q.query_id [ none ↦ random | some i ↦ pos 0 ];
  },
  seek_cur (sizeof header_c_type) s,
)

-- values[name]: an empty dict has been replaced by None.
unfoldable pub lookup_value {ℓ} : {V : Type ℓ} → Dict ℕ V → ℕ → Result V
lookup_value [] name = err type_error
lookup_value (v ∷ vs) name = elim (get (v ∷ vs) name) [ none ↦ err key_error | some x ↦ ok x ]

unfoldable pub write_fields {ℓ} : {V : Type ℓ} → List (Field V) → Dict ℕ V → Stream → Result Stream
unfolding lookup_value
write_fields [] values s = ok s
write_fields (f ∷ fs) values s = do
  v ← lookup_value values f.name
  s' ← f.from_python s v
  write_fields fs values s'

-- __write_header(stream, header, init_pos). The position is never before `init_pos + 14`.
unfoldable pub write_header : Stream → Header → ℕ → Stream
unfolding header_bytes
write_header s h init_pos =
    let h' = record h { length = pos (tell s - init_pos - sizeof c_int) } in
    write (seek_set init_pos s) (header_bytes h')

-- from_python(stream, values)
unfoldable pub from_python {ℓ} : {V : Type ℓ} → Query V → ℤ → Stream → Dict ℕ V → Result Stream
unfolding build_header write_fields write_header
from_python q random s values =
    let start = build_header q random s in
    write_fields q.following values start.1 >>= λ s'. ok (write_header s' start.0 (tell s))

-- ExpiryPolicy._CType; `value` stands for `not_null`, and `element` 0, 1 and 2 for `create`, `update`
-- and `access`.
unfoldable pub policy_c_type : CType
policy_c_type = struct (
    field value c_byte (
      field (element 0) c_longlong
        (field (element 1) c_longlong (field (element 2) c_longlong end))))

-- ExpiryPolicy.parse(stream)
unfoldable pub parse_policy : Stream → CType × Stream
unfolding policy_c_type
parse_policy s =
    if from_bytes (slice (pos (tell s)) 1 s) == 0
    then (c_byte, seek_cur (sizeof c_byte) s)
    else (policy_c_type, seek_cur (sizeof policy_c_type) s)

unfoldable pub read_policy : CObject → Result (Option ExpiryPolicy)
unfolding new_policy
read_policy o = do
  c ← get_int o (element 0)
  u ← get_int o (element 1)
  a ← get_int o (element 2)
  p ← new_policy c u a
  ok (some p)

-- ExpiryPolicy.to_python(ctypes_object): 0 is None, and a structure's durations are checked again.
unfoldable pub policy_to_python : CObject → Result (Option ExpiryPolicy)
unfolding read_policy
policy_to_python (int z) = if eq_ℤ z (pos 0) then ok none else read_policy (int z)
policy_to_python o = read_policy o

-- ExpiryPolicy.from_python(stream, value)
unfoldable pub write_optional_policy : Stream → Option ExpiryPolicy → Result Stream
unfolding write_policy
write_optional_policy s none = ok (write s (0 ∷ []))
write_optional_policy s (some p) = write_policy (write s (1 ∷ [])) p
