-- ===== src/Api/Laws.antt =====
-- The requests of the key-value functions.
use ignite_python_thin_clien.Base.{ℕ, suc, ◌≡◌, refl, [], ◌∷◌, ◌++◌, ℤ, Option, append-nil, subst}
use ignite_python_thin_clien.Base.Dict
use ignite_python_thin_clien.Base.Dict.{Dict}
use ignite_python_thin_clien.Result.{ok}
use ignite_python_thin_clien.Stream.{Stream, write, new_stream}
use ignite_python_thin_clien.Value.{ClassName}
use ignite_python_thin_clien.Types.Sequence.{DataType}
use ignite_python_thin_clien.Types.Any.Guess.{any_data_object, hint_or, classes}
use ignite_python_thin_clien.Types.Any.Wire.{Item, Valid, bare}
use ignite_python_thin_clien.Types.Any.Nested.{argument_hint, argument-Stores}
use ignite_python_thin_clien.Query
use ignite_python_thin_clien.Query.{
  CacheInfo, ExpiryPolicy, Field, Query, write_cache_info, write_policy, write_duration,
  to_signed_bytes, header_bytes, lookup_value,
}
use ignite_python_thin_clien.Query.Laws.{Writes, nothing, writes}
use ignite_python_thin_clien.Api
use ignite_python_thin_clien.Api.{
  Param, info, object, Request, cache_info, key, write_info, write_param, info_field, object_field,
}
use ignite_python_thin_clien.Api.Reads.{cache_get, cache_contains_key}
use ignite_python_thin_clien.Api.Updates.{
  cache_put, cache_get_and_put, cache_get_and_replace, cache_put_if_absent,
  cache_get_and_put_if_absent, cache_replace,
}
use ignite_python_thin_clien.Api.Removals.{cache_get_and_remove, cache_clear_key, cache_remove_key}
use ignite_python_thin_clien.Api.Requests.{
  info_bytes, InfoFits, write_info_lem, KeyFunction, contains_key, get_and_remove, clear_key,
  remove_key, ValueFunction, put, get_and_put, get_and_replace, put_if_absent,
  get_and_put_if_absent, replace, key_request, value_request, key_code, value_code, request_bytes,
  requested, request_written, object_written,
}
use ignite_python_thin_clien.Api.Requests

module _ (others : ClassName → DataType) (d : ℕ) where
  abbrev argument_class : Item → DataType
  argument_class k = hint_or (any_data_object (classes others d)) (argument_hint others d k)

  argument_written :
      (k : Item) (s : Stream)
      → Valid (suc d) k
      → write_param (argument_class k) s (object (bare k).given) ≡ ok (write s (bare k).stored)
  argument_written k s h =
      object_written (argument_class k) (bare k) s (argument-Stores others d k h)

  -- The fields of a `CacheInfo` and of a key write the cache's bytes and the key's.
  key_written :
      (i : CacheInfo) (k : Item)
      → InfoFits i
      → Valid (suc d) k
      → Writes
          ((cache_info, info i) ∷ (key, object (bare k).given) ∷ [])
          (info_field ∷ object_field key (argument_class k) ∷ [])
          (info_bytes i ++ (bare k).stored)
  unfolding lookup_value Dict.get
  key_written i k hi hk =
      subst
        (λ l.
          Writes ((cache_info, info i) ∷ (key, object (bare k).given) ∷ [])
            (info_field ∷ object_field key (argument_class k) ∷ []) (info_bytes i ++ l))
        (append-nil (bare k).stored)
        (writes (info i) (info_bytes i) _ refl (λ s. write_info_lem i s hi)
          (writes (object (bare k).given) (bare k).stored [] refl (λ s. argument_written k s hk)
            nothing))

  value_written :
      (i : CacheInfo) (k v : Item)
      → InfoFits i
      → Valid (suc d) k
      → Valid (suc d) v
      → Writes
          ((cache_info, info i)
            ∷ (key, object (bare k).given)
            ∷ (Api.value, object (bare v).given)
            ∷ [])
          (info_field
            ∷ object_field key (argument_class k)
            ∷ object_field Api.value (argument_class v)
            ∷ [])
          (info_bytes i ++ ((bare k).stored ++ (bare v).stored))
  unfolding lookup_value Dict.get
  value_written i k v hi hk hv =
      subst
        (λ l.
          Writes
            ((cache_info, info i)
              ∷ (key, object (bare k).given)
              ∷ (Api.value, object (bare v).given)
              ∷ [])
            (info_field
              ∷ object_field key (argument_class k)
              ∷ object_field Api.value (argument_class v)
              ∷ [])
            (info_bytes i ++ ((bare k).stored ++ l)))
        (append-nil (bare v).stored)
        (writes (info i) (info_bytes i) _ refl (λ s. write_info_lem i s hi)
          (writes (object (bare k).given) (bare k).stored _ refl (λ s. argument_written k s hk)
            (writes (object (bare v).given) (bare v).stored [] refl (λ s. argument_written v s hv)
              nothing)))

  -- The request of a function for a key, or for a key and a value, of these items.
  abbrev pub key_call : KeyFunction → CacheInfo → Item → Option ℤ → Request
  key_call f i k id =
      key_request (classes others d) f i (bare k).given (argument_hint others d k) id

  abbrev pub value_call : ValueFunction → CacheInfo → (k v : Item) → Option ℤ → Request
  value_call f i k v id =
      value_request (classes others d) f i (bare k).given (bare v).given (argument_hint others d k)
        (argument_hint others d v) id

  -- Each function that takes a key sends the request with its operation code, and in it the bytes of
  -- the `CacheInfo` and those of the key: for a cache id of 32 bits, durations of 64 bits where
  -- there is a policy and the server knows policies, and a key that is a valid item, with its hint.
  pub key_request-bytes :
      (f : KeyFunction) (i : CacheInfo) (k : Item) (id : Option ℤ) (random : ℤ)
      → InfoFits i
      → Valid (suc d) k
      → Query.from_python
          (key_call f i k id).query
          random
          (new_stream [])
          (key_call f i k id).query_params
        ≡ ok (requested (request_bytes (key_code f) id random (info_bytes i ++ (bare k).stored)))
  unfolding key_request cache_get cache_contains_key cache_get_and_remove cache_clear_key
      cache_remove_key
  key_request-bytes Requests.get i k id random hi hk =
      request_written _ _ random _ (key_written i k hi hk)
  key_request-bytes contains_key i k id random hi hk =
      request_written _ _ random _ (key_written i k hi hk)
  key_request-bytes get_and_remove i k id random hi hk =
      request_written _ _ random _ (key_written i k hi hk)
  key_request-bytes clear_key i k id random hi hk =
      request_written _ _ random _ (key_written i k hi hk)
  key_request-bytes remove_key i k id random hi hk =
      request_written _ _ random _ (key_written i k hi hk)

  -- Each function that takes a key and a value sends the request with its operation code, and in it
  -- the bytes of the `CacheInfo`, of the key and of the value, under the conditions of
  -- `key_request-bytes` on each.
  pub value_request-bytes :
      (f : ValueFunction) (i : CacheInfo) (k v : Item) (id : Option ℤ) (random : ℤ)
      → InfoFits i
      → Valid (suc d) k
      → Valid (suc d) v
      → Query.from_python
          (value_call f i k v id).query
          random
          (new_stream [])
          (value_call f i k v id).query_params
        ≡ ok (
            requested (
              request_bytes
                (value_code f)
                id
                random
                (info_bytes i ++ ((bare k).stored ++ (bare v).stored))))
  unfolding value_request cache_put cache_get_and_put cache_get_and_replace cache_put_if_absent
      cache_get_and_put_if_absent cache_replace
  value_request-bytes put i k v id random hi hk hv =
      request_written _ _ random _ (value_written i k v hi hk hv)
  value_request-bytes get_and_put i k v id random hi hk hv =
      request_written _ _ random _ (value_written i k v hi hk hv)
  value_request-bytes get_and_replace i k v id random hi hk hv =
      request_written _ _ random _ (value_written i k v hi hk hv)
  value_request-bytes put_if_absent i k v id random hi hk hv =
      request_written _ _ random _ (value_written i k v hi hk hv)
  value_request-bytes get_and_put_if_absent i k v id random hi hk hv =
      request_written _ _ random _ (value_written i k v hi hk hv)
  value_request-bytes replace i k v id random hi hk hv =
      request_written _ _ random _ (value_written i k v hi hk hv)
