-- ===== src/Api/Requests.antt =====
-- The parts of the requests of the key-value functions, as the protocol has them.
use ignite_python_thin_clien.Base.{
  ℕ, ◌+◌, ◌≡◌, ap, ◌∙◌, true, List, [], ◌∷◌, ◌++◌, length, ℤ, pos, Option, none, some, append_assoc,
}
use ignite_python_thin_clien.Base.Bytes.{le_bytes, wrap}
use ignite_python_thin_clien.Base.Dict.{Dict}
use ignite_python_thin_clien.Result.{ok}
use ignite_python_thin_clien.Stream.{Stream, write, new_stream}
use ignite_python_thin_clien.Stream.Writes.{write-write}
use ignite_python_thin_clien.Value.{Value, ClassName}
use ignite_python_thin_clien.Connection.Protocol.{ProtocolContext, is_expiry_policy_supported}
use ignite_python_thin_clien.Types.Primitive.{in_range}
use ignite_python_thin_clien.Types.Sequence.{DataType}
use ignite_python_thin_clien.Types.Sequence.Laws.{Piece, Stores}
use ignite_python_thin_clien.Query
use ignite_python_thin_clien.Query.{
  CacheInfo, ExpiryPolicy, Field, Query, write_cache_info, write_policy, write_duration,
  to_signed_bytes, header_bytes, lookup_value,
}
use ignite_python_thin_clien.Query.Laws.{Writes, request_header, from_python-request}
use ignite_python_thin_clien.Api.{Param, info, object, Request, write_info, write_param}
use ignite_python_thin_clien.Api.Reads.{cache_get, cache_contains_key}
use ignite_python_thin_clien.Api.Updates.{
  cache_put, cache_get_and_put, cache_get_and_replace, cache_put_if_absent,
  cache_get_and_put_if_absent, cache_replace,
}
use ignite_python_thin_clien.Api.Removals.{cache_get_and_remove, cache_clear_key, cache_remove_key}

-- A duration as eight bytes.
abbrev pub long_bytes : ℤ → List ℕ
long_bytes z = le_bytes 8 (wrap 8 z)

-- The bytes of a CacheInfo: the cache's id, and a flag with the expiry policy's durations.
unfoldable pub info_bytes : CacheInfo → List ℕ
info_bytes i = le_bytes 4 (wrap 4 i.cache_id) ++ elim i.expiry_policy [
  | none ↦ 0 ∷ []
  | some p ↦ 4 ∷ (long_bytes p.create ++ (long_bytes p.update ++ long_bytes p.access))
]

-- An id of 32 bits, and durations of 64 bits if the server knows expiry policies.
unfoldable pub InfoFits : CacheInfo → Type 0
InfoFits i = (in_range 4 i.cache_id ≡ true) × elim i.expiry_policy [
  | none ↦ Unit {0}
  | some p ↦
      (is_expiry_policy_supported i.protocol_context ≡ true)
      × (in_range 8 p.create ≡ true)
      × (in_range 8 p.update ≡ true)
      × (in_range 8 p.access ≡ true)
]

write_policy_lem :
    (s : Stream) (p : ExpiryPolicy)
    → in_range 8 p.create ≡ true
    → in_range 8 p.update ≡ true
    → in_range 8 p.access ≡ true
    → write_policy s p
      ≡ ok (write s (long_bytes p.create ++ (long_bytes p.update ++ long_bytes p.access)))
unfolding write_policy write_duration to_signed_bytes
write_policy_lem s p c u a = rw (
  c,
  u,
  a,
  write-write (write s (long_bytes p.create)) (long_bytes p.update) (long_bytes p.access),
  write-write s (long_bytes p.create) (long_bytes p.update ++ long_bytes p.access),
)

write_fields_of :
    (id : ℤ) (e : Option ExpiryPolicy) (c : ProtocolContext) (s : Stream)
    → InfoFits (record { cache_id = id; expiry_policy = e; protocol_context = c })
    → write_info s (info (record { cache_id = id; expiry_policy = e; protocol_context = c }))
      ≡ ok
          (write s (info_bytes (record { cache_id = id; expiry_policy = e; protocol_context = c })))
unfolding write_info write_cache_info info_bytes to_signed_bytes InfoFits
write_fields_of id none c s (h, _) = rw (h, write-write s (le_bytes 4 (wrap 4 id)) (0 ∷ []))
write_fields_of id (some p) c s (h, (f, cr, up, ac)) =
    let durations = long_bytes p.create ++ (long_bytes p.update ++ long_bytes p.access) in
    rw (
      h,
      f,
      write_policy_lem (write (write s (le_bytes 4 (wrap 4 id))) (4 ∷ [])) p cr up ac,
      write-write (write s (le_bytes 4 (wrap 4 id))) (4 ∷ []) durations,
      write-write s (le_bytes 4 (wrap 4 id)) (4 ∷ durations),
    )

pub write_info_lem :
    (i : CacheInfo) (s : Stream) → InfoFits i → write_info s (info i) ≡ ok (write s (info_bytes i))
write_info_lem i s h = write_fields_of i.cache_id i.expiry_policy i.protocol_context s h

-- The functions that take a key, and those that take a key and a value.
pub data KeyFunction : Type 0 where
  get contains_key get_and_remove clear_key remove_key : KeyFunction

pub data ValueFunction : Type 0 where
  put get_and_put get_and_replace put_if_absent get_and_put_if_absent replace : ValueFunction

module _ (cls : ClassName → DataType) where
  unfoldable pub key_request :
      KeyFunction → CacheInfo → Value → Option DataType → Option ℤ → Request
  unfolding cache_get cache_contains_key cache_get_and_remove cache_clear_key cache_remove_key
  key_request get = cache_get cls
  key_request contains_key = cache_contains_key cls
  key_request get_and_remove = cache_get_and_remove cls
  key_request clear_key = cache_clear_key cls
  key_request remove_key = cache_remove_key cls

  unfoldable pub value_request :
      ValueFunction
      → CacheInfo
      → Value
      → Value
      → Option DataType
      → Option DataType
      → Option ℤ
      → Request
  unfolding cache_put cache_get_and_put cache_get_and_replace cache_put_if_absent
      cache_get_and_put_if_absent cache_replace
  value_request put = cache_put cls
  value_request get_and_put = cache_get_and_put cls
  value_request get_and_replace = cache_get_and_replace cls
  value_request put_if_absent = cache_put_if_absent cls
  value_request get_and_put_if_absent = cache_get_and_put_if_absent cls
  value_request replace = cache_replace cls

-- The operation codes of the protocol.
abbrev pub key_code : KeyFunction → ℕ
key_code get = 1000
key_code contains_key = 1011
key_code get_and_remove = 1007
key_code clear_key = 1014
key_code remove_key = 1016

abbrev pub value_code : ValueFunction → ℕ
value_code put = 1001
value_code get_and_put = 1005
value_code get_and_replace = 1006
value_code put_if_absent = 1002
value_code get_and_put_if_absent = 1008
value_code replace = 1009

-- A request: how many bytes follow its length, the operation, the query's id, and the body. The id is
-- random, or 0 where one has been asked for.
unfoldable pub request_bytes : (code : ℕ) (id : Option ℤ) (random : ℤ) (body : List ℕ) → List ℕ
request_bytes code id random body =
    le_bytes 4 (wrap 4 (pos (10 + length body)))
    ++ (le_bytes 2 (wrap 2 (pos code))
        ++ (long_bytes (elim id [ none ↦ random | some _ ↦ pos 0 ]) ++ body))

-- The stream that a request leaves behind.
abbrev pub requested : List ℕ → Stream
requested bs = record { buffer = bs; position = 14 }

header_bytes-request :
    (q : Query Param) (random : ℤ) (body : List ℕ)
    → header_bytes (request_header q random body) ++ body
      ≡ request_bytes q.op_code q.query_id random body
unfolding header_bytes Query.build_header request_bytes
header_bytes-request q random body =
    let a = le_bytes 4 (wrap 4 (pos (10 + length body))) in
    let b = le_bytes 2 (wrap 2 (pos q.op_code)) in
    let c = long_bytes (elim q.query_id [ none ↦ random | some _ ↦ pos 0 ]) in
    rw (append_assoc a (b ++ c) body, append_assoc b c body)

-- A query whose fields write `body` is the request with that body.
pub request_written :
    (q : Query Param) (params : Dict ℕ Param) (random : ℤ) (body : List ℕ)
    → Writes params q.following body
    → Query.from_python q random (new_stream []) params
      ≡ ok (requested (request_bytes q.op_code q.query_id random body))
request_written q params random body w =
    from_python-request q random params [] body w
    ∙ ap (λ l. ok (requested l)) (header_bytes-request q random body)

pub object_written :
    (t : DataType) (p : Piece) (s : Stream)
    → Stores t p
    → write_param t s (object p.given) ≡ ok (write s p.stored)
unfolding write_param
object_written t p s h = h.writes s
