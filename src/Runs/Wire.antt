-- ===== src/Runs/Wire.antt =====
-- What is written and read, at concrete values.
use ignite_python_thin_clien.Base.{
  ℕ, ◌+◌, ◌≡◌, refl, arith, inl, ◌%◌, ◌^◌, true, false, List, [], ◌∷◌, ◌++◌, pos, negsuc, none,
  some,
}
use ignite_python_thin_clien.Result.{Result, ok, err, overflow_error, cache_error}
use ignite_python_thin_clien.Base.Bytes.{signed}
use ignite_python_thin_clien.Stream.{write}
use ignite_python_thin_clien.Stream.Laws.{stream_at}
use ignite_python_thin_clien.Value.{Value, int, str}
use ignite_python_thin_clien.Text.{utf8_encode, utf8_char}
use ignite_python_thin_clien.Types.Primitive.{short, char}
use ignite_python_thin_clien.Types.DataObject.{data_object, object_bytes}
use ignite_python_thin_clien.Types.Nullable.{from_python, loads}
use ignite_python_thin_clien.Types.Nullable.Laws.{RoundTrips}
use ignite_python_thin_clien.Types.DataObject.Laws.{integer_round_trip, char_high_unreadable}
use ignite_python_thin_clien.Ctypes.{cut}
use ignite_python_thin_clien.Base.Dict.{get, nat_eq}
use ignite_python_thin_clien.Types.String.{string_class, string_bytes}
use ignite_python_thin_clien.Types.String.Laws.{string_round_trip, string_read_to_nul}
use ignite_python_thin_clien.Query.{Query, Field, header_bytes, lookup_value}
use ignite_python_thin_clien.Query
use ignite_python_thin_clien.Query.Laws.{nothing, writes, request_header, from_python-request}
use ignite_python_thin_clien.Cursor.{page, drain}
use ignite_python_thin_clien.Cursor.Laws.{
  last, then_page, cursor_at, unwrap_rows, drain_all, drain_empty_page,
}
use ignite_python_thin_clien.Hash.{hashcode, text}
use ignite_python_thin_clien.Hash.Laws.{hashcode_text, polynomial}

integer_round_trip_example :
    RoundTrips
      (data_object short)
      (7 ∷ [])
      (9 ∷ [])
      (int (negsuc 1))
      (int (negsuc 1))
      (object_bytes short (negsuc 1))
integer_round_trip_example = integer_round_trip short (7 ∷ []) (9 ∷ []) (negsuc 1) tt refl

char_high_unreadable_example :
    (from_python (data_object char) (stream_at [] []) (str (0xac00 ∷ []))
      ≡ ok (stream_at ([] ++ object_bytes char (pos 0xac00)) []))
    × (loads (data_object char) (stream_at [] (object_bytes char (pos 0xac00) ++ []))
        ≡ err overflow_error)
char_high_unreadable_example = char_high_unreadable [] [] 0xac00 (omega arith) (omega arith) refl

-- The text "aж".
abbrev sample : List ℕ
sample = 97 ∷ 0x436 ∷ []

sample_encoded : utf8_encode sample ≡ ok (97 ∷ 208 ∷ 182 ∷ [])
unfolding utf8_encode utf8_char
sample_encoded = refl

string_round_trip_example :
    RoundTrips string_class []
      (9 ∷ [])
      (str sample)
      (str sample)
      (string_bytes (97 ∷ 208 ∷ 182 ∷ []))
string_round_trip_example =
    string_round_trip [] (9 ∷ []) sample (97 ∷ 208 ∷ 182 ∷ [])
      (inl (omega arith), (inl (omega arith), tt)) (omega arith, (omega arith, tt)) sample_encoded
      (omega arith)

nul_encoded : utf8_encode (97 ∷ 0 ∷ 98 ∷ []) ≡ ok (97 ∷ 0 ∷ 98 ∷ [])
unfolding utf8_encode utf8_char
nul_encoded = refl

string_read_to_nul_example :
    RoundTrips string_class [] []
      (str (97 ∷ 0 ∷ 98 ∷ []))
      (str (cut (97 ∷ 0 ∷ 98 ∷ [])))
      (string_bytes (97 ∷ 0 ∷ 98 ∷ []))
string_read_to_nul_example =
    string_read_to_nul [] [] (97 ∷ 0 ∷ 98 ∷ []) (97 ∷ 0 ∷ 98 ∷ [])
      (inl (omega arith), (inl (omega arith), (inl (omega arith), tt))) nul_encoded (omega arith)

-- A field that writes one byte.
abbrev one_byte : Field Value
one_byte = record { name = 0; from_python = λ s v. ok (write s (5 ∷ [])) }

abbrev sample_query : Query Value
sample_query = record { op_code = 1000; following = one_byte ∷ []; query_id = none }

sample_value : lookup_value ((0, int (pos 5)) ∷ []) 0 ≡ ok (int (pos 5))
unfolding lookup_value get
sample_value = refl

from_python-request_example :
    Query.from_python sample_query (pos 77) (stream_at (1 ∷ []) []) ((0, int (pos 5)) ∷ [])
    ≡ ok (record {
      buffer =
          (1 ∷ []) ++ (header_bytes (request_header sample_query (pos 77) (5 ∷ [])) ++ (5 ∷ []));
      position = 1 + 14;
    })
from_python-request_example =
    from_python-request sample_query (pos 77) ((0, int (pos 5)) ∷ []) (1 ∷ []) (5 ∷ [])
      (writes (int (pos 5)) (5 ∷ []) [] sample_value (λ s. refl) nothing)

-- Unwrapping that adds one, so that what is yielded differs from what is received.
abbrev add_one : ℕ → Result ℕ
add_one n = ok (n + 1)

all_unwrapped : unwrap_rows add_one (1 ∷ 2 ∷ 3 ∷ 4 ∷ []) ≡ ok (2 ∷ 3 ∷ 4 ∷ 5 ∷ [])
unfolding unwrap_rows
all_unwrapped = refl

drain_all_example :
    drain add_one 5 cache_error
      (page (3 ∷ []) true ∷ page (4 ∷ []) false ∷ [])
      (cursor_at (1 ∷ 2 ∷ []) true (pos 6))
    ≡ some (ok (2 ∷ 3 ∷ 4 ∷ 5 ∷ []), cursor_at [] false (pos 6))
drain_all_example =
    drain_all add_one cache_error (pos 6) 5 (then_page 3 [] (then_page 4 [] last)) (1 ∷ 2 ∷ [])
      (2 ∷ 3 ∷ 4 ∷ 5 ∷ []) all_unwrapped (omega arith)

one_unwrapped : unwrap_rows add_one (1 ∷ []) ≡ ok (2 ∷ [])
unfolding unwrap_rows
one_unwrapped = refl

drain_empty_page_example :
    drain add_one 2 cache_error
      (page [] true ∷ page (4 ∷ []) false ∷ [])
      (cursor_at (1 ∷ []) true (pos 6))
    ≡ some (ok (2 ∷ []), cursor_at [] true (pos 6))
drain_empty_page_example =
    drain_empty_page add_one cache_error (pos 6) true (page (4 ∷ []) false ∷ []) (1 ∷ []) (2 ∷ []) 2
      one_unwrapped (omega arith)

hashcode_text_example : hashcode (text sample) ≡ signed 4 (polynomial 0 sample % 2 ^ 32)
hashcode_text_example = hashcode_text sample
