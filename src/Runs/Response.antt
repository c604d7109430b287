-- ===== src/Runs/Response.antt =====
-- Responses and arrays at concrete values.
use ignite_python_thin_clien.Base.{
  ℕ, ◌+◌, ◌≡◌, refl, arith, false, List, [], ◌∷◌, ◌++◌, pos, negsuc, none, some,
}
use ignite_python_thin_clien.Base.Bytes.{from_bytes, signed}
use ignite_python_thin_clien.Result.{ok}
use ignite_python_thin_clien.Value.{int, list, of_list}
use ignite_python_thin_clien.Stream.{new_stream, read_ctype, seek_cur, seek_set, tell}
use ignite_python_thin_clien.Ctypes.{
  CType, struct, sizeof, decode, read_int, getattr, lookup_member, from_buffer_copy,
}
use ignite_python_thin_clien.Types.Primitive.{short}
use ignite_python_thin_clien.Types.Nullable.Laws.{RoundTrips}
use ignite_python_thin_clien.Types.Array.{array_class}
use ignite_python_thin_clien.Types.Array.Items.{array_bytes}
use ignite_python_thin_clien.Types.Array.Laws.{array_round_trip}
use ignite_python_thin_clien.Connection.Protocol.{
  ProtocolContext, is_status_flags_supported, version_lt,
}
use ignite_python_thin_clien.Response.{
  ApiResult, perform, process, parse, parse_header, parse_flags, flag_fields, parse_error_message,
  parse_success, to_fields, to_python, with_value, api_result, update_version, newer, affinity_lt,
  status_flag_header, affinity_fields,
}
use ignite_python_thin_clien.Response.Laws.{perform-not_older, parse-end}

array_round_trip_example :
    RoundTrips
      (array_class short)
      (7 ∷ [])
      (9 ∷ [])
      (list (of_list (int (pos 1) ∷ int (negsuc 1) ∷ [])))
      (list (of_list (int (pos 1) ∷ int (negsuc 1) ∷ [])))
      (array_bytes short (pos 1 ∷ negsuc 1 ∷ []))
array_round_trip_example =
    array_round_trip short (7 ∷ []) (9 ∷ []) (pos 1 ∷ negsuc 1 ∷ []) tt (refl, (refl, tt))
      (omega arith)

-- A response of version 1.7 with the topology flag and no value.
abbrev response_data : List ℕ
response_data =
    22 ∷ 0 ∷ 0 ∷ 0 ∷ 5 ∷ 0 ∷ 0 ∷ 0 ∷ 0 ∷ 0 ∷ 0 ∷ 0 ∷ 2 ∷ 0 ∷ 3 ∷ 0 ∷ 0 ∷ 0 ∷ 0 ∷ 0 ∷ 0 ∷ 0 ∷ 1 ∷ 0
    ∷ 0 ∷ 0 ∷ []

abbrev context : ProtocolContext
context = record { version = (1, 7, 0); features = some 4 }

abbrev received : ApiResult
received = record { status = pos 0; query_id = pos 5; message = none; value = none }

performs : perform context [] response_data (pos 2, pos 0) ≡ ok (received, (pos 3, pos 1))
unfolding perform process parse parse_header parse_flags flag_fields parse_error_message
    parse_success to_fields to_python with_value api_result update_version newer affinity_lt
    read_ctype from_buffer_copy decode sizeof read_int signed from_bytes getattr lookup_member
    is_status_flags_supported version_lt seek_cur seek_set tell
performs = refl

perform-not_older_example : affinity_lt (pos 3, pos 1) (pos 2, pos 0) ≡ false
perform-not_older_example =
    perform-not_older context [] response_data (pos 2, pos 0) (pos 3, pos 1) received performs

abbrev response_type : CType
response_type = struct (to_fields (status_flag_header ++ affinity_fields))

parses :
    parse context [] (new_stream response_data)
    ≡ ok (response_type, record { buffer = response_data; position = 26 })
unfolding parse parse_header parse_flags flag_fields parse_error_message parse_success to_fields
    read_ctype from_buffer_copy decode sizeof read_int signed from_bytes getattr lookup_member
    is_status_flags_supported version_lt seek_cur seek_set tell
parses = refl

parse-end_example :
    tell (record { buffer = response_data; position = 26 })
    ≡ tell (new_stream response_data) + sizeof response_type
parse-end_example =
    parse-end context [] (new_stream response_data)
      (record { buffer = response_data; position = 26 }) response_type parses
