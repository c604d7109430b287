-- ===== src/Response/Laws.antt =====
-- Where a response ends, and what becomes of the affinity version.
use ignite_python_thin_clien.Base.{
  ℕ, ◌+◌, ◌≡◌, inl, inr, ap, sym, arith, Bool, true, false, List, ◌++◌, pos, Bool-cases, none,
  if◌then◌else◌,
}
use ignite_python_thin_clien.Result.{ok, ◌>>=◌, >>=-eq-ok}
use ignite_python_thin_clien.Stream.{
  Stream, tell, seek_set, new_stream, read_ctype, read_backward, read_forward,
}
use ignite_python_thin_clien.Ctypes.{
  CType, CObject, struct, sizeof, get_int, flags, affinity_version, affinity_minor, status_code,
}
use ignite_python_thin_clien.Connection.Protocol.{ProtocolContext, is_status_flags_supported}
use ignite_python_thin_clien.Types.Nullable
use ignite_python_thin_clien.Types.String.{string_class}
use ignite_python_thin_clien.Response.{
  Member, ApiResult, to_fields, parse, parse_header, parse_success, AffinityVersion, affinity_lt,
  newer, update_version, perform, process, has_flag, default_to, rhf_topology_changed, api_result,
  with_value, FieldList, status_header, status_flag_header, Parsed, parse_error_message,
  parse_flags, parse_status,
}

affinity_lt-irreflexive : (v : AffinityVersion) → affinity_lt v v ≡ false
unfolding affinity_lt
affinity_lt-irreflexive (a, b) = ground arith

affinity_lt-asymmetric : (v w : AffinityVersion) → affinity_lt v w ≡ true → affinity_lt w v ≡ false
unfolding affinity_lt
affinity_lt-asymmetric (a, b) (c, d) h = ground arith

newer-not_older : (new old : AffinityVersion) → affinity_lt (newer new old) old ≡ false
unfolding newer
newer-not_older new old = elim (Bool-cases (affinity_lt old new)) [
  | inl h ↦ rw h (affinity_lt-asymmetric old new h)
  | inr h ↦ rw h (affinity_lt-irreflexive old)
]

update_version-not_older :
    (o : CObject) (old v : AffinityVersion)
    → update_version o old ≡ ok v
    → affinity_lt v old ≡ false
unfolding update_version
update_version-not_older o old v h =
    decided (has_flag (default_to (pos 0) (get_int o flags)) rhf_topology_changed) h
  where
    decided :
        (b : Bool)
        → (if b
            then (get_int o affinity_version >>= λ version.
                (get_int o affinity_minor >>= λ minor. ok (newer (version, minor) old)))
            else ok old)
          ≡ ok v
        → affinity_lt v old ≡ false
    decided false e = let same : old ≡ v = cc in rw (← same) (affinity_lt-irreflexive old)
    decided true e =
        let (a, ea, e1) = >>=-eq-ok (get_int o affinity_version) _ e in
        let (b, eb, e2) = >>=-eq-ok (get_int o affinity_minor) _ e1 in
        let same : newer (a, b) old ≡ v = cc in rw (← same) (newer-not_older (a, b) old)

ok-eq {ℓ} : {A : Type ℓ} {x y : A} → ok x ≡ ok y → x ≡ y
ok-eq h = cc

second-ok : (x y : ApiResult × AffinityVersion) → ok x ≡ ok y → x.1 ≡ y.1
second-ok x y h = let same : x ≡ y = cc in ap (λ p. p.1) same

process-not_older :
    (following : List Member) (o : CObject) (old v : AffinityVersion) (r : ApiResult)
    → process following o old ≡ ok (r, v)
    → affinity_lt v old ≡ false
unfolding process
process-not_older following o old v r h =
    let (w, e, h1) = >>=-eq-ok (update_version o old) _ h in
    let (a, ea, h2) = >>=-eq-ok (api_result o) _ h1 in
    let (b, eb, h3) = >>=-eq-ok (with_value following o a) _ h2 in
    rw (← second-ok (b, w) (r, v) h3) (update_version-not_older o old w e)

-- Whatever an answer holds, a call of `perform` that returns leaves the client with an affinity
-- version that is not before the one it had.
pub perform-not_older :
    (p : ProtocolContext) (following : List Member) (response_data : List ℕ)
    (old v : AffinityVersion) (r : ApiResult)
    → perform p following response_data old ≡ ok (r, v)
    → affinity_lt v old ≡ false
unfolding perform
perform-not_older p following response_data old v r h =
    let (ts, e, h1) = >>=-eq-ok (parse p following (new_stream response_data)) _ h in
    let (o, e1, h2) = >>=-eq-ok (read_ctype ts.0 none read_backward ts.1) _ h1 in
    process-not_older following o old v r h2

parse_error_message-init_pos :
    (b : Bool) (n : ℕ) (header fields : FieldList) (s : Stream) (h : Parsed)
    → parse_error_message b n header fields s ≡ ok h
    → h.init_pos ≡ n
unfolding parse_error_message
parse_error_message-init_pos false n header fields s h e =
    let same : record { success = true; init_pos = n; header = header; fields = fields; stream = s }
        ≡ h =
      cc in
    sym (ap (λ p. p.init_pos) same)
parse_error_message-init_pos true n header fields s h e =
    let (ts, e1, h1) = >>=-eq-ok (Nullable.parse string_class s) _ e in
    let same = ok-eq h1 in sym (ap (λ p. p.init_pos) same)

parse_header-init_pos :
    (p : ProtocolContext) (s : Stream) (h : Parsed) → parse_header p s ≡ ok h → h.init_pos ≡ tell s
unfolding parse_header parse_flags parse_status
parse_header-init_pos p s h e = elim (Bool-cases (is_status_flags_supported p)) [
  | inl t ↦ with_flags t e
  | inr f ↦ with_status f e
]
  where
    with_flags : is_status_flags_supported p ≡ true → parse_header p s ≡ ok h → h.init_pos ≡ tell s
    with_flags t = rw t (λ e.
        let (o, e1, h1) =
          >>=-eq-ok (read_ctype (struct (to_fields status_flag_header)) none read_forward s) _ e in
        let (z, e2, h2) = >>=-eq-ok (get_int o flags) _ h1 in
        parse_error_message-init_pos _ (tell s) _ _ _ h h2)

    with_status :
        is_status_flags_supported p ≡ false → parse_header p s ≡ ok h → h.init_pos ≡ tell s
    with_status f = rw f (λ e.
        let (o, e1, h1) =
          >>=-eq-ok (read_ctype (struct (to_fields status_header)) none read_forward s) _ e in
        let (z, e2, h2) = >>=-eq-ok (get_int o status_code) _ h1 in
        parse_error_message-init_pos _ (tell s) _ _ _ h h2)

-- A stream whose response has been parsed stands right behind the structure that has been built for
-- it, counted from where the response begins, whatever the types of the values took.
pub parse-end :
    (p : ProtocolContext) (following : List Member) (s s' : Stream) (t : CType)
    → parse p following s ≡ ok (t, s')
    → tell s' ≡ tell s + sizeof t
unfolding parse tell seek_set
parse-end p following s s' t e =
    let (h, e1, h1) = >>=-eq-ok (parse_header p s) _ e in
    let (r, e2, h2) =
      >>=-eq-ok
        (if h.success then parse_success following h.fields h.stream else ok (h.fields, h.stream)) _
        h1 in
    let at_start = parse_header-init_pos p s h e1 in
    let same = ok-eq h2 in
    rw (← ap (λ x. x.0) same, ← ap (λ x. x.1) same)
      (ap (λ n. n + sizeof (struct (to_fields (h.header ++ r.0)))) at_start)
