-- ===== src/Api.antt =====
-- How the functions of pyignite/api make a query and take its result: `query_perform` of
-- pyignite/queries/query.py. What `conn.request` gives for the bytes of a request is a parameter.
pub mod Reads
pub mod Updates
pub mod Removals
pub mod Requests
pub mod Laws
pub mod Answers
use ignite_python_thin_clien.Base.{
  ℕ, List, [], ◌∷◌, ℤ, pos, eq_ℤ, if◌then◌else◌, Option, none, some,
}
use ignite_python_thin_clien.Base.Dict.{Dict}
use ignite_python_thin_clien.Result.{Result, ok, err, type_error, key_error, attribute_error, ◌>>=◌}
use ignite_python_thin_clien.Stream.{Stream, new_stream}
use ignite_python_thin_clien.Ctypes.{Attr, attr_eq, as_int}
use ignite_python_thin_clien.Value.{Value, none_value, list, tuple, nil, cons}
use ignite_python_thin_clien.Connection.Protocol.{ProtocolContext}
use ignite_python_thin_clien.Types.Primitive
use ignite_python_thin_clien.Types.Primitive.{Primitive, byte}
use ignite_python_thin_clien.Types.Array.{parse_payload, read_payload, write_payload}
use ignite_python_thin_clien.Types.Sequence.{DataType}
use ignite_python_thin_clien.Query
use ignite_python_thin_clien.Query.{CacheInfo, Field, Query, write_cache_info}
use ignite_python_thin_clien.Response.{Member, ApiResult, AffinityVersion, perform}

-- A parameter of a query: a `CacheInfo`, or any other value.
pub data Param : Type 0 where
  info : CacheInfo → Param
  object : Value → Param

-- CacheInfo.from_python(stream, value)
unfoldable pub write_info : Stream → Param → Result Stream
unfolding write_cache_info
write_info s (info i) = write_cache_info s (some i)
write_info s (object none_value) = write_cache_info s none
write_info s (object v) = err attribute_error

-- No function gives a `CacheInfo` to another class.
unfoldable pub write_param : DataType → Stream → Param → Result Stream
write_param t s (info i) = err type_error
write_param t s (object v) = t.from_python s v

-- The names of parameters.
abbrev pub cache_info : ℕ
cache_info = 0

abbrev pub key : ℕ
key = 1

abbrev pub value : ℕ
value = 2

abbrev pub keys : ℕ
keys = 3

abbrev pub pairs : ℕ
pairs = 4

abbrev pub sample : ℕ
sample = 5

abbrev pub peek_modes : ℕ
peek_modes = 6

-- ('cache_info', CacheInfo)
abbrev pub info_field : Field Param
info_field = record { name = cache_info; from_python = write_info }

abbrev pub object_field : ℕ → DataType → Field Param
object_field n t = record { name = n; from_python = write_param t }

abbrev pub member : Attr → DataType → Member
member a t = record { name = a; parse = t.parse; to_python = t.to_python }

-- A class of primitive.py: a structure's attribute of its type reads as an integer.
abbrev pub payload : Primitive → DataType
payload p = record {
  parse = Primitive.parse p;
  to_python = λ o. (as_int o >>= Primitive.to_python p);
  from_python = Primitive.from_python p;
}

-- ByteArray
abbrev pub byte_array_payload : DataType
byte_array_payload = record {
  parse = parse_payload byte;
  to_python = read_payload byte;
  from_python = write_payload byte;
}

-- None, or what is no list or tuple, is made a list.
unfoldable pub peek_list : Value → Value
peek_list none_value = list nil
peek_list (list vs) = list vs
peek_list (tuple vs) = tuple vs
peek_list v = list (cons v nil)

-- What a function of the API gives to `query_perform`; `post_process` is the key of
-- `__post_process_value_by_key`.
pub record Request : Type 0 where
  pub query : Query Param
  pub query_params : Dict ℕ Param
  pub response_config : List Member
  pub post_process : Option Attr

-- The parts of the APIResult that the caller sees.
pub record Outcome : Type 0 where
  pub status : ℤ
  pub message : Option Value
  pub value : Value

-- value[key]
unfoldable pub get_value : List (Attr × Value) → Attr → Result Value
get_value [] a = err key_error
get_value ((b, v) ∷ vs) a = if attr_eq a b then ok v else get_value vs a

abbrev outcome : ApiResult → Value → Outcome
outcome r v = record { status = r.status; message = r.message; value = v }

-- __post_process_value_by_key(key)(result); a result without a key to take has no value.
unfoldable pub post_process_value : Option Attr → ApiResult → Result Outcome
unfolding get_value
post_process_value none r = ok (outcome r none_value)
post_process_value (some a) r =
    if eq_ℤ r.status (pos 0)
    then elim r.value [ none ↦ err type_error | some vs ↦ do v ← get_value vs a; ok (outcome r v) ]
    else ok (outcome r none_value)

-- query_perform(query_struct, conn, post_process_fun, query_params, response_config), where `random`
-- is what `randint` gives, `request` what `conn.request` does with the bytes, and `old` the client's
-- affinity version.
unfoldable pub query_perform :
    (request : List ℕ → Result (List ℕ)) (random : ℤ) (p : ProtocolContext) (old : AffinityVersion)
    → Request
    → Result (Outcome × AffinityVersion)
unfolding Query.from_python perform post_process_value
query_perform request random p old r = do
  s ← Query.from_python r.query random (new_stream []) r.query_params
  response_data ← request s.buffer
  (result, version) ← perform p r.response_config response_data old
  out ← post_process_value r.post_process result
  ok (out, version)
