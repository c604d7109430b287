-- ===== src/Runs/Api.antt =====
-- The key-value functions, at concrete values.
use ignite_python_thin_clien.Base.{
  inl, ℕ, ◌≡◌, refl, arith, true, List, [], ◌∷◌, ◌++◌, length, pos, negsuc, ltb, if◌then◌else◌,
  some, none, drop, ◌-◌,
}
use ignite_python_thin_clien.Result.{Result, ok, err, parse_error, type_error}
use ignite_python_thin_clien.Stream.{new_stream}
use ignite_python_thin_clien.Base.Bytes.{le_bytes, wrap}
use ignite_python_thin_clien.Ctypes.{assign_chars, cut}
use ignite_python_thin_clien.Text.{utf8_encode, utf8_char}
use ignite_python_thin_clien.Value.{ClassName, none_value, str}
use ignite_python_thin_clien.Connection.Protocol.{
  ProtocolContext, is_status_flags_supported, is_expiry_policy_supported, version_lt,
}
use ignite_python_thin_clien.Types.Primitive.{int_type}
use ignite_python_thin_clien.Types.Sequence.{DataType}
use ignite_python_thin_clien.Types.Any.Wire.{Item, integer, text, bare, piece, Valid}
use ignite_python_thin_clien.Query
use ignite_python_thin_clien.Query.{CacheInfo}
use ignite_python_thin_clien.Response.Success.{answer_header}
use ignite_python_thin_clien.Response.Failure.{error_bytes}
use ignite_python_thin_clien.Api.{query_perform}
use ignite_python_thin_clien.Api.Requests
use ignite_python_thin_clien.Api.Requests.{
  info_bytes, InfoFits, request_bytes, requested, put, replace, remove_key, clear_key,
}
use ignite_python_thin_clien.Api.Laws.{key_call, value_call, key_request-bytes, value_request-bytes}
use ignite_python_thin_clien.Api.Answers.{
  Exchange, received, succeeded, cache_put-cache_get, key_request-refused,
}

abbrev no_others : ClassName → DataType
no_others c = record {
  parse = λ s. err parse_error;
  to_python = λ o. err parse_error;
  from_python = λ s v. err type_error;
}

abbrev protocol : ProtocolContext
protocol = record { version = (1, 7, 0); features = none }

abbrev sample_info : CacheInfo
sample_info = record {
  cache_id = negsuc 4;
  expiry_policy = some (record { create = pos 1000; update = negsuc 1; access = negsuc 0 });
  protocol_context = protocol;
}

sample_info-InfoFits : InfoFits sample_info
unfolding InfoFits version_lt is_expiry_policy_supported
sample_info-InfoFits = (refl, (refl, refl, refl, refl))

abbrev sample_key : Item
sample_key = text (97 ∷ []) (97 ∷ [])

sample_key-Valid : Valid 1 sample_key
unfolding Valid utf8_encode utf8_char
sample_key-Valid = ((inl (omega arith), tt), (omega arith, tt), refl, omega arith)

-- An integer with IntObject as its hint.
abbrev sample_item : Item
sample_item = integer int_type (negsuc 6)

sample_item-Valid : Valid 1 sample_item
unfolding Valid
sample_item-Valid = (tt, refl)

flags_supported : is_status_flags_supported protocol ≡ true
unfolding is_status_flags_supported version_lt
flags_supported = refl

key_request-bytes_example :
    Query.from_python
      (key_call no_others 0 remove_key sample_info sample_key none).query
      (pos 77)
      (new_stream [])
      (key_call no_others 0 remove_key sample_info sample_key none).query_params
    ≡ ok (
        requested
          (request_bytes 1016 none (pos 77) (info_bytes sample_info ++ (bare sample_key).stored)))
key_request-bytes_example =
    key_request-bytes no_others 0 remove_key sample_info sample_key none (pos 77)
      sample_info-InfoFits sample_key-Valid

value_request-bytes_example :
    Query.from_python
      (value_call no_others 0 replace sample_info sample_key sample_item (some (pos 5))).query
      (pos 77)
      (new_stream [])
      (value_call no_others 0 replace sample_info sample_key sample_item
        (some (pos 5))).query_params
    ≡ ok (
        requested (
          request_bytes 1009
            (some (pos 5))
            (pos 77)
            (info_bytes sample_info ++ ((bare sample_key).stored ++ (bare sample_item).stored))))
value_request-bytes_example =
    value_request-bytes no_others 0 replace sample_info sample_key sample_item (some (pos 5))
      (pos 77) sample_info-InfoFits sample_key-Valid sample_item-Valid

-- A server that holds the bytes of one value: a request longer than 50 bytes puts its last five
-- bytes, any other gets what is held.
abbrev one_value : Exchange (List ℕ)
one_value held request =
    if ltb 50 (length request)
    then (ok (received (answer_header (pos 10) (pos 77))), drop (length request - 5) request)
    else (ok (received (answer_header (pos 15) (pos 77) ++ held)), held)

put_exchanged :
    one_value [] (
      request_bytes 1001 none
        (pos 77)
        (info_bytes sample_info ++ ((bare sample_key).stored ++ (bare sample_item).stored)))
    ≡ (ok (received (answer_header (pos 10) (pos 77))), (bare sample_item).stored)
unfolding request_bytes info_bytes bare piece le_bytes wrap assign_chars cut
put_exchanged = refl

get_exchanged :
    one_value
      (bare sample_item).stored
      (request_bytes 1000 none (pos 77) (info_bytes sample_info ++ (bare sample_key).stored))
    ≡ (
      ok (received (answer_header (pos 15) (pos 77) ++ (bare sample_item).stored)),
      (bare sample_item).stored,
    )
unfolding request_bytes info_bytes bare piece le_bytes wrap assign_chars cut
get_exchanged = refl

cache_put-cache_get_example :
    (query_perform
        (λ bs. (one_value [] bs).0)
        (pos 77)
        protocol
        (pos 0, pos 0)
        (value_call no_others 0 put sample_info sample_key sample_item none)
      ≡ ok (succeeded none_value, (pos 0, pos 0)))
    × (query_perform
          (λ bs. (one_value (bare sample_item).stored bs).0)
          (pos 77)
          protocol
          (pos 0, pos 0)
          (key_call no_others 0 Requests.get sample_info sample_key none)
        ≡ ok (succeeded (bare sample_item).returned, (pos 0, pos 0)))
cache_put-cache_get_example =
    cache_put-cache_get one_value [] (bare sample_item).stored (bare sample_item).stored no_others 0
      protocol sample_info sample_key sample_item none none (pos 77) (pos 77) (pos 10) (pos 15)
      (pos 77) (pos 77) (pos 0, pos 0) flags_supported sample_info-InfoFits sample_key-Valid
      sample_item-Valid refl refl put_exchanged get_exchanged

-- A server that refuses every request: status 5, message 'a'.
abbrev refuses : List ℕ → Result (List ℕ)
refuses request = ok (received (error_bytes (pos 20) (pos 77) (pos 5) (97 ∷ [])))

key_request-refused_example :
    query_perform refuses
      (pos 77)
      protocol
      (pos 0, pos 0)
      (key_call no_others 0 clear_key sample_info sample_key none)
    ≡ ok (
      record { status = pos 5; message = some (str (97 ∷ [])); value = none_value },
      (pos 0, pos 0),
    )
key_request-refused_example =
    key_request-refused refuses no_others 0 protocol clear_key sample_info sample_key none (pos 77)
      (pos 20) (pos 77) (pos 5) (97 ∷ []) (97 ∷ []) (pos 0, pos 0) flags_supported
      sample_info-InfoFits sample_key-Valid refl refl refl (inl (omega arith), tt) (omega arith, tt)
      (unfold utf8_encode utf8_char in refl) (omega arith) refl
