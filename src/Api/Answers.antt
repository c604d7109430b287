-- ===== src/Api/Answers.antt =====
-- What the key-value functions make of the server's answers.
use ignite_python_thin_clien.Base.{
  ℕ, suc, ◌-◌, append_assoc, ◌^◌, ◌<◌, ◌≡◌, refl, ap, true, false, List, ◌++◌, length, ℤ, pos, eq_ℤ,
  Option, none, some, All,
}
use ignite_python_thin_clien.Result.{Result, ok}
use ignite_python_thin_clien.Text.{IsScalar, utf8_encode}
use ignite_python_thin_clien.Ctypes
use ignite_python_thin_clien.Value.{Value, ClassName, none_value, str}
use ignite_python_thin_clien.Connection.Protocol.{ProtocolContext, is_status_flags_supported}
use ignite_python_thin_clien.Types.Primitive.{in_range}
use ignite_python_thin_clien.Types.Sequence.{DataType}
use ignite_python_thin_clien.Types.Any.Guess.{any_data_object, classes}
use ignite_python_thin_clien.Types.Any.Wire.{Item, Valid, bare}
use ignite_python_thin_clien.Types.Any.Nested.{item-Reads}
use ignite_python_thin_clien.Query.{CacheInfo}
use ignite_python_thin_clien.Response.{AffinityVersion}
use ignite_python_thin_clien.Response.Success.{answer_header, perform_answer, perform_empty}
use ignite_python_thin_clien.Response.Failure.{error_bytes, perform-error}
use ignite_python_thin_clien.Api.{Outcome, query_perform, post_process_value, get_value}
use ignite_python_thin_clien.Connection.Recv.Held.{zeros}
use ignite_python_thin_clien.Api.Reads.{cache_get}
use ignite_python_thin_clien.Api.Updates.{cache_put}
use ignite_python_thin_clien.Api.Requests
use ignite_python_thin_clien.Api.Requests.{
  KeyFunction, ValueFunction, put, key_code, value_code, info_bytes, InfoFits, request_bytes,
  key_request, value_request,
}
use ignite_python_thin_clien.Api.Laws.{key_call, value_call, key_request-bytes, value_request-bytes}

-- The result that a function has where the server reports no error.
abbrev pub succeeded : Value → Outcome
succeeded v = record { status = pos 0; message = none; value = v }

-- What `recv` returns for the bytes of an answer: they are put in a buffer of 1024 zeros, or in one
-- of their own length where that is too short.
abbrev pub received : List ℕ → List ℕ
received bs = bs ++ zeros (1024 - length bs)

-- What `conn.request` gives, and what the server becomes.
abbrev pub Exchange : Type 0 → Type 0
Exchange S = S → List ℕ → Result (List ℕ) × S

abbrev padding : (len echo : ℤ) → Item → List ℕ
padding len echo v = zeros (1024 - length (answer_header len echo ++ (bare v).stored))

module _ (others : ClassName → DataType) (d : ℕ) (c : ProtocolContext)
    (flags : is_status_flags_supported c ≡ true) (i : CacheInfo) (hi : InfoFits i) where
  put_answered :
      (request : List ℕ → Result (List ℕ)) (k v : Item) (id : Option ℤ) (random len echo : ℤ)
      (old : AffinityVersion)
      → Valid (suc d) k
      → Valid (suc d) v
      → in_range 8 echo ≡ true
      → request (
          request_bytes
            (value_code put)
            id
            random
            (info_bytes i ++ ((bare k).stored ++ (bare v).stored)))
        ≡ ok (received (answer_header len echo))
      → query_perform request random c old (value_call others d put i k v id)
        ≡ ok (succeeded none_value, old)
  unfolding query_perform value_request cache_put post_process_value
  put_answered request k v id random len echo old hk hv he e = rw (
    value_request-bytes others d put i k v id random hi hk hv,
    e,
    perform_empty c len echo old (zeros (1024 - length (answer_header len echo))) flags he,
  )

  get_answered :
      (request : List ℕ → Result (List ℕ)) (k v : Item) (id : Option ℤ) (random len echo : ℤ)
      (old : AffinityVersion)
      → Valid (suc d) k
      → Valid (suc d) v
      → in_range 8 echo ≡ true
      → request (request_bytes (key_code Requests.get) id random (info_bytes i ++ (bare k).stored))
        ≡ ok (received (answer_header len echo ++ (bare v).stored))
      → query_perform request random c old (key_call others d Requests.get i k id)
        ≡ ok (succeeded (bare v).returned, old)
  unfolding query_perform key_request cache_get post_process_value get_value
  get_answered request k v id random len echo old hk hv he e = rw (
    key_request-bytes others d Requests.get i k id random hi hk,
    e,
    append_assoc (answer_header len echo) (bare v).stored (padding len echo v),
    perform_answer len echo Ctypes.value (any_data_object (classes others d)) (bare v)
        (refl, refl, refl, refl, refl, refl) he (item-Reads others d v hv) c old
        (padding len echo v) flags,
  )

-- A result with a status is not post-processed.
post_refused :
    (a : Option Ctypes.Attr) (status id : ℤ) (message : Value)
    → eq_ℤ status (pos 0) ≡ false
    → post_process_value a
        (record { status = status; query_id = id; message = some message; value = none })
      ≡ ok (record { status = status; message = some message; value = none_value })
unfolding post_process_value
post_refused none status id message ne = refl
post_refused (some a) status id message ne = rw ne

-- On protocol 1.4 and later, a server that acknowledges the bytes of a `cache_put` and answers the
-- bytes of a `cache_get` for the same cache and key with the bytes of the value put, in whatever
-- state it is then, each answer padded with zeros to 1024 bytes as `recv` returns it, makes the put succeed and the get return the value as it is read back: for a
-- cache info that fits, a key and a value that are valid items, and ids of 64 bits. The affinity
-- version is left alone.
pub cache_put-cache_get :
    {S : Type 0} (exchange : Exchange S) (start stored last : S) (others : ClassName → DataType)
    (d : ℕ) (c : ProtocolContext) (i : CacheInfo) (k v : Item) (put_id get_id : Option ℤ)
    (put_random get_random put_len get_len put_echo get_echo : ℤ) (old : AffinityVersion)
    → is_status_flags_supported c ≡ true
    → InfoFits i
    → Valid (suc d) k
    → Valid (suc d) v
    → in_range 8 put_echo ≡ true
    → in_range 8 get_echo ≡ true
    → exchange start (
        request_bytes 1001 put_id put_random (info_bytes i ++ ((bare k).stored ++ (bare v).stored)))
      ≡ (ok (received (answer_header put_len put_echo)), stored)
    → exchange stored (request_bytes 1000 get_id get_random (info_bytes i ++ (bare k).stored))
      ≡ (ok (received (answer_header get_len get_echo ++ (bare v).stored)), last)
    → (query_perform
          (λ bs. (exchange start bs).0)
          put_random
          c
          old
          (value_call others d put i k v put_id)
        ≡ ok (succeeded none_value, old))
      × (query_perform
            (λ bs. (exchange stored bs).0)
            get_random
            c
            old
            (key_call others d Requests.get i k get_id)
          ≡ ok (succeeded (bare v).returned, old))
cache_put-cache_get exchange start stored last others d c i k v put_id get_id put_random get_random
      put_len get_len put_echo get_echo old f hi hk hv hp hg ep eg =
    (
      put_answered others d c f i hi (λ bs. (exchange start bs).0) k v put_id put_random put_len
          put_echo old hk hv hp (ap (λ r. r.0) ep),
      get_answered others d c f i hi (λ bs. (exchange stored bs).0) k v get_id get_random get_len
          get_echo old hk hv hg (ap (λ r. r.0) eg),
    )

-- On protocol 1.4 and later, each function that takes a key gives the status and the message of an
-- answer with the error flag, padded with zeros to 1024 bytes as `recv` returns it, and no value, under the conditions of `key_request-bytes` on the
-- request and of `perform-error` on the answer.
pub key_request-refused :
    (request : List ℕ → Result (List ℕ)) (others : ClassName → DataType) (d : ℕ)
    (c : ProtocolContext) (f : KeyFunction) (i : CacheInfo) (k : Item) (id : Option ℤ)
    (random len echo status : ℤ) (cs bs : List ℕ) (old : AffinityVersion)
    → is_status_flags_supported c ≡ true
    → InfoFits i
    → Valid (suc d) k
    → in_range 8 echo ≡ true
    → in_range 4 status ≡ true
    → eq_ℤ status (pos 0) ≡ false
    → All IsScalar cs
    → All (λ x. 0 < x) cs
    → utf8_encode cs ≡ ok bs
    → length bs < 2 ^ 31
    → request (request_bytes (key_code f) id random (info_bytes i ++ (bare k).stored))
      ≡ ok (received (error_bytes len echo status bs))
    → query_perform request random c old (key_call others d f i k id)
      ≡ ok (record { status = status; message = some (str cs); value = none_value }, old)
unfolding query_perform
key_request-refused request others d c f i k id random len echo status cs bs old fl hi hk he hs ne
      sc nz enc l answer =
    rw (
      key_request-bytes others d f i k id random hi hk,
      answer,
      perform-error c (key_call others d f i k id).response_config old len echo status cs bs
          (zeros (1024 - length (error_bytes len echo status bs))) fl he hs ne sc nz enc l,
      post_refused (key_call others d f i k id).post_process status echo (str cs) ne,
    )
