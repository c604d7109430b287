-- ===== src/Response/Failure.antt =====
-- What is made of an answer of the server with an error.
use ignite_python_thin_clien.Base.{
  ℕ, ◌^◌, ◌<◌, ◌≡◌, refl, sym, ap, ◌∙◌, arith, true, false, List, [], ◌∷◌, ◌++◌, length, ℤ, pos,
  some, none, All, eq_ℤ, take-append, drop-append, length-append, append-nil, append_assoc,
}
use ignite_python_thin_clien.Base.Bytes.{le_bytes, wrap, from_bytes, signed, length-le_bytes}
use ignite_python_thin_clien.Result.{ok}
use ignite_python_thin_clien.Stream.{new_stream, tell, seek_cur, seek_set}
use ignite_python_thin_clien.Stream.Laws.{
  stream_at, advanced, read_back, read_forward_at, seek_past,
}
use ignite_python_thin_clien.Ctypes.{
  CType, CObject, c_int, struct, members, member, none_left, int, sizeof, decode, decode_fields,
  getattr, lookup_member, get_int, length_attr, query_id, flags, status_code, error_message,
  read_int,
}
use ignite_python_thin_clien.Text.{IsScalar, utf8_encode}
use ignite_python_thin_clien.Value.{str}
use ignite_python_thin_clien.Connection.Protocol.{ProtocolContext, is_status_flags_supported}
use ignite_python_thin_clien.Types.String.{string_class, string_bytes}
use ignite_python_thin_clien.Types.Primitive.{in_range}
use ignite_python_thin_clien.Types.Primitive.Laws.{signed-wrap}
use ignite_python_thin_clien.Types.Sequence.{nullable}
use ignite_python_thin_clien.Types.Sequence.Laws.{Piece, Stores}
use ignite_python_thin_clien.Types.Any.Leaf.{string_piece, string-Coded}
use ignite_python_thin_clien.Response.{
  Member, FieldList, status_flag_header, to_fields, flag_fields, parse_header, parse, api_result,
  update_version, with_value, process, perform, AffinityVersion, ApiResult,
}
use ignite_python_thin_clien.Response.Success.{read_front, drop_front}

-- The front of an answer with an error, in the format of protocol 1.4 and later: the header with the
-- error's flag, and a status. The message is a string behind it.
unfoldable pub error_header : (len id : ℤ) → List ℕ
error_header len id = le_bytes 4 (wrap 4 len) ++ (le_bytes 8 (wrap 8 id) ++ le_bytes 2 1)

unfoldable pub error_bytes : (len id status : ℤ) → (message : List ℕ) → List ℕ
unfolding error_header
error_bytes len id status message =
    error_header len id ++ (le_bytes 4 (wrap 4 status) ++ string_bytes message)

length-error_header :
    (len id : ℤ) → length (error_header len id) ≡ sizeof (struct (to_fields status_flag_header))
unfolding error_header sizeof to_fields
length-error_header len id = omega (
  arith,
  length-append (le_bytes 4 (wrap 4 len)) (le_bytes 8 (wrap 8 id) ++ le_bytes 2 1),
  length-append (le_bytes 8 (wrap 8 id)) (le_bytes 2 1),
  length-le_bytes 4 (wrap 4 len),
  length-le_bytes 8 (wrap 8 id),
  length-le_bytes 2 1,
)

decode_error :
    (len id : ℤ) (fields : FieldList) (bs : List ℕ)
    → in_range 8 id ≡ true
    → decode_fields (to_fields (status_flag_header ++ fields)) (error_header len id ++ bs)
      ≡ member length_attr (int (signed 4 (wrap 4 len))) (
          member query_id
            (int id)
            (member flags (int (pos 1)) (decode_fields (to_fields fields) bs)))
unfolding error_header to_fields decode sizeof
decode_error len id fields bs h =
    let tail = le_bytes 2 1 ++ bs in
    rw
      (
        append_assoc (le_bytes 4 (wrap 4 len)) (le_bytes 8 (wrap 8 id) ++ le_bytes 2 1) bs,
        append_assoc (le_bytes 8 (wrap 8 id)) (le_bytes 2 1) bs,
        read_front 4 len (le_bytes 8 (wrap 8 id) ++ tail),
        drop_front 4 len (le_bytes 8 (wrap 8 id) ++ tail),
        read_front 8 id tail,
        signed-wrap 8 id h,
        drop_front 8 id tail,
        take-append 2 (le_bytes 2 1) bs (sym (length-le_bytes 2 1)),
        drop-append 2 (le_bytes 2 1) bs (sym (length-le_bytes 2 1)),
      )
      (unfold le_bytes read_int from_bytes signed in refl)

-- The flag announces a status, and a message behind it.
flags_found :
    (len id : ℤ)
    → in_range 8 id ≡ true
    → get_int (decode (struct (to_fields status_flag_header)) (error_header len id)) flags
      ≡ ok (pos 1)
unfolding decode getattr
flags_found len id h =
    let alone : decode_fields (to_fields status_flag_header) (error_header len id)
        ≡ member length_attr (int (signed 4 (wrap 4 len)))
            (member query_id (int id) (member flags (int (pos 1)) none_left)) =
      ap (λ l. decode_fields (to_fields status_flag_header) l)
        (sym (append-nil (error_header len id)))
      ∙ decode_error len id [] [] h
      ∙ (unfold to_fields decode in refl) in
    rw alone (unfold lookup_member in refl)

status_announced : flag_fields (pos 1) ≡ (status_code, c_int) ∷ []
unfolding flag_fields
status_announced = refl

module _ (len id status : ℤ) (p : Piece) (h : in_range 8 id ≡ true) (hs : in_range 4 status ≡ true)
    (st : Stores (nullable string_class) p) where
  abbrev front : List ℕ
  front = error_header len id ++ le_bytes 4 (wrap 4 status)

  abbrev fields : FieldList
  fields = (status_code, c_int) ∷ (error_message, p.c_type) ∷ []

  parse_error_header :
      (c : ProtocolContext) (rest : List ℕ)
      → is_status_flags_supported c ≡ true
      → parse_header c
          (stream_at [] (error_header len id ++ (le_bytes 4 (wrap 4 status) ++ (p.stored ++ rest))))
        ≡ ok (record {
          success = false;
          init_pos = 0;
          header = status_flag_header;
          fields = fields;
          stream = stream_at (front ++ p.stored) rest;
        })
  unfolding parse_header
  parse_error_header c rest f =
      let after = le_bytes 4 (wrap 4 status) ++ (p.stored ++ rest) in
      let past : seek_cur (sizeof (struct (to_fields (flag_fields (pos 1)))))
            (stream_at (error_header len id) after)
          ≡ stream_at front (p.stored ++ rest) =
        seek_past (error_header len id) (le_bytes 4 (wrap 4 status)) (p.stored ++ rest) _
          (unfold sizeof to_fields flag_fields in length-le_bytes 4 (wrap 4 status)) in
      rw
        (
          f,
          read_forward_at (struct (to_fields status_flag_header)) [] (error_header len id) after
              (length-error_header len id),
          flags_found len id h,
          seek_past [] (error_header len id) after (sizeof (struct (to_fields status_flag_header)))
              (length-error_header len id),
          past,
          st.parses front rest,
        )
        (unfold tell in refl)

  abbrev error_object : CObject
  error_object = members (
      member length_attr (int (signed 4 (wrap 4 len))) (
        member query_id (int id) (
          member flags (int (pos 1)) (
            member status_code (int status)
              (member error_message (decode p.c_type p.stored) none_left)))))

  abbrev error_type : CType
  error_type = struct (to_fields (status_flag_header ++ fields))

  -- The result of a request that the server has refused.
  abbrev pub failed_answer : ApiResult
  failed_answer = record { status = status; query_id = id; message = some p.returned; value = none }

  process_error :
      (following : List Member) (old : AffinityVersion)
      → eq_ℤ status (pos 0) ≡ false
      → process following error_object old ≡ ok (failed_answer, old)
  unfolding process update_version api_result with_value getattr lookup_member
  process_error following old ne = rw (st.reads, ne)

  decode_whole :
      decode error_type (error_header len id ++ (le_bytes 4 (wrap 4 status) ++ p.stored))
      ≡ error_object
  unfolding decode
  decode_whole = rw (decode_error len id fields (le_bytes 4 (wrap 4 status) ++ p.stored) h) (
      unfold to_fields sizeof in
      rw (read_front 4 status p.stored, signed-wrap 4 status hs, drop_front 4 status p.stored))

  error_size :
      length (error_header len id ++ (le_bytes 4 (wrap 4 status) ++ p.stored)) ≡ sizeof error_type
  unfolding sizeof to_fields
  error_size = omega (
    arith,
    length-append (error_header len id) (le_bytes 4 (wrap 4 status) ++ p.stored),
    length-append (le_bytes 4 (wrap 4 status)) p.stored,
    length-le_bytes 4 (wrap 4 status),
    length-error_header len id,
    st.size,
  )

  parse_error :
      (c : ProtocolContext) (following : List Member) (rest : List ℕ)
      → is_status_flags_supported c ≡ true
      → parse c following
          (new_stream (error_header len id ++ (le_bytes 4 (wrap 4 status) ++ (p.stored ++ rest))))
        ≡ ok (
          error_type,
          advanced []
              ((error_header len id ++ (le_bytes 4 (wrap 4 status) ++ p.stored)) ++ rest)
              (sizeof error_type),
        )
  unfolding parse seek_set
  parse_error c following rest f = rw (parse_error_header c rest f) (
      ap (λ l. ok (error_type, advanced [] (l ++ rest) (sizeof error_type)))
        (append_assoc (error_header len id) (le_bytes 4 (wrap 4 status)) p.stored))

  perform_failed :
      (c : ProtocolContext) (following : List Member) (old : AffinityVersion) (rest : List ℕ)
      → is_status_flags_supported c ≡ true
      → eq_ℤ status (pos 0) ≡ false
      → perform c following
          (error_header len id ++ (le_bytes 4 (wrap 4 status) ++ (p.stored ++ rest)))
          old
        ≡ ok (failed_answer, old)
  unfolding perform
  perform_failed c following old rest f ne = rw (
    parse_error c following rest f,
    read_back error_type [] (error_header len id ++ (le_bytes 4 (wrap 4 status) ++ p.stored)) rest
        error_size,
    decode_whole,
    process_error following old ne,
  )

error_bytes-append :
    (len id status : ℤ) (bs rest : List ℕ)
    → error_bytes len id status bs ++ rest
      ≡ error_header len id ++ (le_bytes 4 (wrap 4 status) ++ (string_bytes bs ++ rest))
unfolding error_bytes
error_bytes-append len id status bs rest =
    append_assoc (error_header len id) (le_bytes 4 (wrap 4 status) ++ string_bytes bs) rest
    ∙ ap (λ l. error_header len id ++ l)
        (append_assoc (le_bytes 4 (wrap 4 status)) (string_bytes bs) rest)

-- On protocol 1.4 and later, an answer with the error flag, a status other than 0 and a message
-- (scalar values other than U+0000, whose UTF-8 form `bs` is shorter than 2^31 bytes) becomes a result with
-- that status and message and no value, whatever values the request expected, and the client keeps
-- its affinity version; bytes behind the answer change nothing.
pub perform-error :
    (c : ProtocolContext) (following : List Member) (old : AffinityVersion) (len id status : ℤ)
    (cs bs rest : List ℕ)
    → is_status_flags_supported c ≡ true
    → in_range 8 id ≡ true
    → in_range 4 status ≡ true
    → eq_ℤ status (pos 0) ≡ false
    → All IsScalar cs
    → All (λ c. 0 < c) cs
    → utf8_encode cs ≡ ok bs
    → length bs < 2 ^ 31
    → perform c following (error_bytes len id status bs ++ rest) old
      ≡ ok (record { status = status; query_id = id; message = some (str cs); value = none }, old)
perform-error c following old len id status cs bs rest f h hs ne sc nz e l =
    rw (error_bytes-append len id status bs rest) (
      perform_failed len id status (string_piece cs bs) h hs (string-Coded cs bs sc nz e l).stores c
        following old rest f ne)
