-- ===== src/Response.antt =====
-- `Response` of pyignite/queries/response.py, `APIResult` of pyignite/api/result.py, and what
-- `Query.perform` of pyignite/queries/query.py does with an answer. The types of the values that
-- follow the header are parameters.
pub mod Laws
pub mod Success
pub mod Failure
use ignite_python_thin_clien.Base.{
  ℕ, zero, ◌+◌, Bool, true, false, not, List, [], ◌∷◌, ◌++◌, map, ℤ, pos, eq_ℤ, ltb_ℤ, ◌||◌, ◌&&◌,
  ◌==◌, if◌then◌else◌, Option, none, some,
}
use ignite_python_thin_clien.Hash.{and_ℤ}
use ignite_python_thin_clien.Result.{Result, ok, err, Error, attribute_error, ◌>>=◌}
use ignite_python_thin_clien.Stream.{
  Stream, new_stream, tell, seek_cur, seek_set, read_ctype, read_forward, read_backward,
}
use ignite_python_thin_clien.Ctypes.{
  CType, CObject, Attr, Fields, c_short, c_int, c_longlong, struct, field, end, sizeof, getattr,
  get_int, length_attr, query_id, flags, status_code, affinity_version, affinity_minor,
  error_message,
}
use ignite_python_thin_clien.Value.{Value}
use ignite_python_thin_clien.Types.Nullable
use ignite_python_thin_clien.Types.String.{string_class}
use ignite_python_thin_clien.Connection.Protocol.{ProtocolContext, is_status_flags_supported}

-- A member of `following`.
pub record Member : Type 0 where
  pub name : Attr
  pub parse : Stream → Result (CType × Stream)
  pub to_python : CObject → Result Value

-- The `_fields_` of a structure.
abbrev pub FieldList : Type 0
FieldList = List (Attr × CType)

unfoldable pub to_fields : FieldList → Fields
to_fields [] = end
to_fields ((a, t) ∷ fs) = field a t (to_fields fs)

-- StatusFlagResponseHeader and ResponseHeader
abbrev pub status_flag_header : FieldList
status_flag_header = (length_attr, c_int) ∷ (query_id, c_longlong) ∷ (flags, c_short) ∷ []

abbrev pub status_header : FieldList
status_header = (length_attr, c_int) ∷ (query_id, c_longlong) ∷ (status_code, c_int) ∷ []

abbrev pub rhf_error : ℕ
rhf_error = 1

abbrev pub rhf_topology_changed : ℕ
rhf_topology_changed = 2

abbrev pub has_flag : ℤ → ℕ → Bool
has_flag z f = not (and_ℤ z f == 0)

abbrev pub affinity_fields : FieldList
affinity_fields = (affinity_version, c_longlong) ∷ (affinity_minor, c_int) ∷ []

-- What __parse_header returns, and the stream behind it.
pub record Parsed : Type 0 where
  pub success : Bool
  pub init_pos : ℕ
  pub header : FieldList
  pub fields : FieldList
  pub stream : Stream

-- The fields that the flags announce.
unfoldable pub flag_fields : ℤ → FieldList
flag_fields z =
    (if has_flag z rhf_topology_changed then affinity_fields else [])
    ++ (if has_flag z rhf_error then (status_code, c_int) ∷ [] else [])

-- The end of __parse_header: the message of an error is a string.
unfoldable pub parse_error_message : Bool → ℕ → FieldList → FieldList → Stream → Result Parsed
parse_error_message false init_pos header fields s =
    ok
      (record { success = true; init_pos = init_pos; header = header; fields = fields; stream = s })
parse_error_message true init_pos header fields s = do
  (msg_type, s') ← Nullable.parse string_class s
  ok (record {
    success = false;
    init_pos = init_pos;
    header = header;
    fields = fields ++ ((error_message, msg_type) ∷ []);
    stream = s';
  })

-- The branches of __parse_header behind the header `o`, for a stream that has passed it.
unfoldable pub parse_flags : CObject → ℕ → Stream → Result Parsed
unfolding flag_fields parse_error_message to_fields
parse_flags o init_pos s = get_int o flags >>= λ z.
    parse_error_message (has_flag z rhf_error) init_pos status_flag_header (flag_fields z)
      (seek_cur (sizeof (struct (to_fields (flag_fields z)))) s)

unfoldable pub parse_status : CObject → ℕ → Stream → Result Parsed
unfolding parse_error_message
parse_status o init_pos s = get_int o status_code >>= λ z.
    parse_error_message (not (eq_ℤ z (pos 0))) init_pos status_header [] s

-- __parse_header(stream)
unfoldable pub parse_header : ProtocolContext → Stream → Result Parsed
unfolding to_fields parse_flags parse_status
parse_header p s =
    let with_flags = is_status_flags_supported p in
    let header_type =
      struct (to_fields (if with_flags then status_flag_header else status_header)) in
    read_ctype header_type none read_forward s >>= λ o.
    (let s' = seek_cur (sizeof header_type) s in
      if with_flags then parse_flags o (tell s) s' else parse_status o (tell s) s')

-- _parse_success(stream, fields)
unfoldable pub parse_success : List Member → FieldList → Stream → Result (FieldList × Stream)
parse_success [] fields s = ok (fields, s)
parse_success (m ∷ ms) fields s = do
  (t, s') ← m.parse s
  parse_success ms (fields ++ ((m.name, t) ∷ [])) s'

-- parse(stream)
unfoldable pub parse : ProtocolContext → List Member → Stream → Result (CType × Stream)
unfolding parse_header parse_success
parse p following s = parse_header p s >>= λ h.
    ((if h.success then parse_success following h.fields h.stream else ok (h.fields, h.stream))
      >>= λ r.
          (let t = struct (to_fields (h.header ++ r.0)) in
            ok (t, seek_set (h.init_pos + sizeof t) r.1)))

unfoldable pub to_values : List Member → CObject → Result (List (Attr × Value))
to_values [] o = ok []
to_values (m ∷ ms) o = do
  member ← getattr o m.name
  v ← m.to_python member
  rest ← to_values ms o
  ok ((m.name, v) ∷ rest)

-- to_python(ctypes_object): None where nothing follows.
unfoldable pub to_python : List Member → CObject → Result (Option (List (Attr × Value)))
unfolding to_values
to_python [] o = ok none
to_python (m ∷ ms) o = do vs ← to_values (m ∷ ms) o; ok (some vs)

-- `message` is the text that the server gives; `none` stands for 'Success'.
pub record ApiResult : Type 0 where
  pub status : ℤ
  pub query_id : ℤ
  pub message : Option Value
  pub value : Option (List (Attr × Value))

abbrev default_to : ℤ → Result ℤ → ℤ
default_to z (ok x) = x
default_to z (err e) = z

-- APIResult(response)
unfoldable pub api_result : CObject → Result ApiResult
api_result o = do
  q ← get_int o query_id
  message ← elim (getattr o error_message) [
    | err e ↦ ok none
    | ok m ↦ do v ← Nullable.to_python string_class m; ok (some v)
  ]
  ok (record {
    status = default_to (pos 0) (get_int o status_code);
    query_id = q;
    message = message;
    value = none;
  })

abbrev pub AffinityVersion : Type 0
AffinityVersion = ℤ × ℤ

-- Tuples compare lexicographically.
unfoldable pub affinity_lt : AffinityVersion → AffinityVersion → Bool
affinity_lt (a, b) (c, d) = ltb_ℤ a c || (eq_ℤ a c && ltb_ℤ b d)

unfoldable pub newer : AffinityVersion → AffinityVersion → AffinityVersion
unfolding affinity_lt
newer new old = if affinity_lt old new then new else old

-- __post_process_response: the client's affinity version after the response.
unfoldable pub update_version : CObject → AffinityVersion → Result AffinityVersion
unfolding newer
update_version o old =
    if has_flag (default_to (pos 0) (get_int o flags)) rhf_topology_changed
    then (do
      version ← get_int o affinity_version
      minor ← get_int o affinity_minor
      ok (newer (version, minor) old))
    else ok old

unfoldable pub with_value : List Member → CObject → ApiResult → Result ApiResult
unfolding to_python
with_value following o r =
    if eq_ℤ r.status (pos 0)
    then (to_python following o >>= λ v. ok (record r { value = v }))
    else ok r

-- What is made of the structure `o` that has been read.
unfoldable pub process :
    List Member → CObject → AffinityVersion → Result (ApiResult × AffinityVersion)
unfolding with_value api_result update_version
process following o old = do
  version ← update_version o old
  r ← api_result o
  r' ← with_value following o r
  ok (r', version)

-- The part of perform() behind the request: the result, and the client's affinity version.
unfoldable pub perform :
    ProtocolContext → List Member → List ℕ → AffinityVersion → Result (ApiResult × AffinityVersion)
unfolding parse process
perform p following response_data old = do
  (t, s) ← parse p following (new_stream response_data)
  o ← read_ctype t none read_backward s
  process following o old
