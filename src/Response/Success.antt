-- ===== src/Response/Success.antt =====
-- What is made of an answer of the server without an error.
use ignite_python_thin_clien.Base.{
  ℕ, ◌≡◌, refl, sym, ap, ◌∙◌, arith, true, false, List, [], ◌∷◌, ◌++◌, length, take, drop, ℤ, pos,
  some, none, take-append, drop-append, length-append, append-nil, append_assoc,
}
use ignite_python_thin_clien.Base.Bytes.{
  le_bytes, wrap, wrap-lt, from_bytes, signed, from_bytes-le_bytes, length-le_bytes,
}
use ignite_python_thin_clien.Result.{ok}
use ignite_python_thin_clien.Stream.{new_stream, tell, seek_set}
use ignite_python_thin_clien.Stream.Laws.{
  stream_at, advanced, read_back, read_forward_at, seek_past, seek_none,
}
use ignite_python_thin_clien.Ctypes.{
  CType, CObject, Attr, attr_eq, struct, members, member, none_left, int, sizeof, decode,
  decode_fields, getattr, lookup_member, get_int, length_attr, query_id, flags, status_code,
  error_message, read_int,
}
use ignite_python_thin_clien.Value.{Value}
use ignite_python_thin_clien.Connection.Protocol.{ProtocolContext, is_status_flags_supported}
use ignite_python_thin_clien.Types.Primitive.{in_range}
use ignite_python_thin_clien.Types.Primitive.Laws.{signed-wrap}
use ignite_python_thin_clien.Types.Sequence.{DataType}
use ignite_python_thin_clien.Types.Sequence.Laws.{Piece, Reads}
use ignite_python_thin_clien.Response.{
  Member, FieldList, status_flag_header, to_fields, flag_fields, parse_header, parse_success, parse,
  to_values, to_python, api_result, update_version, with_value, process, perform, AffinityVersion,
  ApiResult,
}

-- The header of an answer in the format of protocol 1.4 and later, without a flag.
unfoldable pub answer_header : (len id : ℤ) → List ℕ
answer_header len id = le_bytes 4 (wrap 4 len) ++ (le_bytes 8 (wrap 8 id) ++ le_bytes 2 0)

-- Names that are none of those of the headers.
abbrev pub IsAnswer : Attr → Type 0
IsAnswer a =
    (attr_eq a length_attr ≡ false)
    × (attr_eq a query_id ≡ false)
    × (attr_eq a flags ≡ false)
    × (attr_eq a a ≡ true)
    × (attr_eq status_code a ≡ false)
    × (attr_eq error_message a ≡ false)

pub length-answer_header : (len id : ℤ) → length (answer_header len id) ≡ 14
unfolding answer_header
length-answer_header len id = omega (
  arith,
  length-append (le_bytes 4 (wrap 4 len)) (le_bytes 8 (wrap 8 id) ++ le_bytes 2 0),
  length-append (le_bytes 8 (wrap 8 id)) (le_bytes 2 0),
  length-le_bytes 4 (wrap 4 len),
  length-le_bytes 8 (wrap 8 id),
  length-le_bytes 2 0,
)

-- An integer of `k` bytes in front of others.
pub read_front :
    (k : ℕ) (z : ℤ) (rest : List ℕ)
    → read_int true k (take k (le_bytes k (wrap k z) ++ rest)) ≡ signed k (wrap k z)
unfolding read_int
read_front k z rest = rw (
  take-append k (le_bytes k (wrap k z)) rest (sym (length-le_bytes k (wrap k z))),
  from_bytes-le_bytes k (wrap k z) (wrap-lt k z),
)

pub drop_front : (k : ℕ) (z : ℤ) (rest : List ℕ) → drop k (le_bytes k (wrap k z) ++ rest) ≡ rest
drop_front k z rest =
    drop-append k (le_bytes k (wrap k z)) rest (sym (length-le_bytes k (wrap k z)))

-- The members that the header is read as, in front of others.
decode_answer :
    (len id : ℤ) (fields : FieldList) (bs : List ℕ)
    → in_range 8 id ≡ true
    → decode_fields (to_fields (status_flag_header ++ fields)) (answer_header len id ++ bs)
      ≡ member length_attr (int (signed 4 (wrap 4 len))) (
          member query_id
            (int id)
            (member flags (int (pos 0)) (decode_fields (to_fields fields) bs)))
unfolding answer_header to_fields decode sizeof
decode_answer len id fields bs h =
    let tail = le_bytes 2 0 ++ bs in
    rw
      (
        append_assoc (le_bytes 4 (wrap 4 len)) (le_bytes 8 (wrap 8 id) ++ le_bytes 2 0) bs,
        append_assoc (le_bytes 8 (wrap 8 id)) (le_bytes 2 0) bs,
        read_front 4 len (le_bytes 8 (wrap 8 id) ++ tail),
        drop_front 4 len (le_bytes 8 (wrap 8 id) ++ tail),
        read_front 8 id tail,
        signed-wrap 8 id h,
        drop_front 8 id tail,
        take-append 2 (le_bytes 2 0) bs (sym (length-le_bytes 2 0)),
        drop-append 2 (le_bytes 2 0) bs (sym (length-le_bytes 2 0)),
      )
      (unfold le_bytes read_int from_bytes signed in refl)

pub sized :
    (len id : ℤ) → length (answer_header len id) ≡ sizeof (struct (to_fields status_flag_header))
unfolding sizeof to_fields
sized len id = length-answer_header len id

pub decode_alone :
    (len id : ℤ)
    → in_range 8 id ≡ true
    → decode_fields (to_fields status_flag_header) (answer_header len id)
      ≡ member length_attr
          (int (signed 4 (wrap 4 len)))
          (member query_id (int id) (member flags (int (pos 0)) none_left))
decode_alone len id h =
    ap (λ l. decode_fields (to_fields status_flag_header) l)
      (sym (append-nil (answer_header len id)))
    ∙ decode_answer len id [] [] h
    ∙ (unfold to_fields decode in refl)

flags_found :
    (len id : ℤ)
    → in_range 8 id ≡ true
    → get_int (decode (struct (to_fields status_flag_header)) (answer_header len id)) flags
      ≡ ok (pos 0)
unfolding decode getattr
flags_found len id h = rw (decode_alone len id h) (unfold lookup_member in refl)

no_flags : flag_fields (pos 0) ≡ []
unfolding flag_fields
no_flags = refl

pub parse_answer_header :
    (p : ProtocolContext) (len id : ℤ) (pre bs : List ℕ)
    → is_status_flags_supported p ≡ true
    → in_range 8 id ≡ true
    → parse_header p (stream_at pre (answer_header len id ++ bs))
      ≡ ok (record {
        success = true;
        init_pos = length pre;
        header = status_flag_header;
        fields = [];
        stream = stream_at (pre ++ answer_header len id) bs;
      })
unfolding parse_header
parse_answer_header p len id pre bs f h =
    rw
      (
        f,
        read_forward_at (struct (to_fields status_flag_header)) pre (answer_header len id) bs
            (sized len id),
        flags_found len id h,
        seek_past pre (answer_header len id) bs (sizeof (struct (to_fields status_flag_header)))
            (sized len id),
      )
      (unfold tell sizeof in rw (seek_none (stream_at (pre ++ answer_header len id) bs)) refl)

abbrev pub answer_member : Attr → DataType → Member
answer_member a t = record { name = a; parse = t.parse; to_python = t.to_python }

-- The structure that an answer with one value is read as.
abbrev answer_object : (len id : ℤ) → Attr → CObject → CObject
answer_object len id a o = members (
    member length_attr (int (signed 4 (wrap 4 len)))
      (member query_id (int id) (member flags (int (pos 0)) (member a o none_left))))

-- An answer without an error.
abbrev answered : ℤ → Attr → Value → ApiResult
answered id a v = record {
  status = pos 0;
  query_id = id;
  message = none;
  value = some ((a, v) ∷ []);
}

module _ (len id : ℤ) (a : Attr) (t : DataType) (p : Piece) (is : IsAnswer a)
    (h : in_range 8 id ≡ true) (st : Reads t p) where
  abbrev answer_type : CType
  answer_type = struct (to_fields (status_flag_header ++ ((a, p.c_type) ∷ [])))

  process_answer :
      (old : AffinityVersion)
      → process (answer_member a t ∷ []) (answer_object len id a (decode p.c_type p.stored)) old
        ≡ ok (answered id a p.returned, old)
  unfolding process update_version api_result with_value to_python to_values getattr lookup_member
  process_answer old = let (n1, n2, n3, n4, n5, n6) = is in rw (n5, n6, n1, n2, n3, n4, st.reads)

  answer_size : length (answer_header len id ++ p.stored) ≡ sizeof answer_type
  unfolding sizeof to_fields
  answer_size =
      omega
        (arith, length-append (answer_header len id) p.stored, length-answer_header len id, st.size)

  decode_whole :
      decode answer_type (answer_header len id ++ p.stored)
      ≡ answer_object len id a (decode p.c_type p.stored)
  unfolding decode
  decode_whole =
      rw (decode_answer len id ((a, p.c_type) ∷ []) p.stored h) (unfold to_fields in refl)

  parse_answer :
      (c : ProtocolContext) (rest : List ℕ)
      → is_status_flags_supported c ≡ true
      → parse c (answer_member a t ∷ []) (new_stream (answer_header len id ++ (p.stored ++ rest)))
        ≡ ok (
          answer_type,
          advanced [] ((answer_header len id ++ p.stored) ++ rest) (sizeof answer_type),
        )
  unfolding parse parse_success seek_set
  parse_answer c rest f = rw (
    parse_answer_header c len id [] (p.stored ++ rest) f h,
    st.parses (answer_header len id) rest,
  )

  -- The answer's value is the one that the server stored, whatever bytes stand behind it, and the
  -- affinity version is left alone.
  pub perform_answer :
      (c : ProtocolContext) (old : AffinityVersion) (rest : List ℕ)
      → is_status_flags_supported c ≡ true
      → perform c (answer_member a t ∷ []) (answer_header len id ++ (p.stored ++ rest)) old
        ≡ ok (answered id a p.returned, old)
  unfolding perform
  perform_answer c old rest f = rw (
    parse_answer c rest f,
    read_back answer_type [] (answer_header len id ++ p.stored) rest answer_size,
    decode_whole,
    process_answer old,
  )

-- An answer without a value.
abbrev pub empty_answer : ℤ → ApiResult
empty_answer id = record { status = pos 0; query_id = id; message = none; value = none }

abbrev header_object : (len id : ℤ) → CObject
header_object len id = members (
    member length_attr (int (signed 4 (wrap 4 len)))
      (member query_id (int id) (member flags (int (pos 0)) none_left)))

process_empty :
    (len id : ℤ) (old : AffinityVersion)
    → process [] (header_object len id) old ≡ ok (empty_answer id, old)
unfolding process update_version api_result with_value to_python getattr lookup_member
process_empty len id old = refl

parse_empty :
    (c : ProtocolContext) (len id : ℤ) (rest : List ℕ)
    → is_status_flags_supported c ≡ true
    → in_range 8 id ≡ true
    → parse c [] (new_stream (answer_header len id ++ rest))
      ≡ ok (
        struct (to_fields status_flag_header),
        advanced [] (answer_header len id ++ rest) (sizeof (struct (to_fields status_flag_header))),
      )
unfolding parse parse_success seek_set
parse_empty c len id rest f h = rw (parse_answer_header c len id [] rest f h)

-- An answer to a request that returns no value, whatever bytes stand behind it.
pub perform_empty :
    (c : ProtocolContext) (len id : ℤ) (old : AffinityVersion) (rest : List ℕ)
    → is_status_flags_supported c ≡ true
    → in_range 8 id ≡ true
    → perform c [] (answer_header len id ++ rest) old ≡ ok (empty_answer id, old)
unfolding perform
perform_empty c len id old rest f h =
    let whole : decode (struct (to_fields status_flag_header)) (answer_header len id)
        ≡ header_object len id =
      unfold decode in ap members (decode_alone len id h) in
    rw (
      parse_empty c len id rest f h,
      read_back (struct (to_fields status_flag_header)) [] (answer_header len id) rest
          (sized len id),
      whole,
      process_empty len id old,
    )
