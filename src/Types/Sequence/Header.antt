-- ===== src/Types/Sequence/Header.antt =====
-- The header in front of the elements: its bytes, and what is found in it.
use ignite_python_thin_clien.Base.{
  ℕ, suc, ◌+◌, ◌*◌, ◌^◌, ◌<◌, ◌≡◌, refl, sym, ap, ◌∙◌, arith, List, ◌∷◌, ◌++◌, length, take, drop,
  ℤ, pos, true, All, length-append, take-append, drop-append, append_assoc, lt→ltb,
}
use ignite_python_thin_clien.Base.Bytes.{
  le_bytes, from_bytes, signed, wrap, wrap-lt, from_bytes-le_bytes, length-le_bytes,
}
use ignite_python_thin_clien.Result.{ok}
use ignite_python_thin_clien.Stream.{slice, seek_cur, tell}
use ignite_python_thin_clien.Stream.Laws.{stream_at, slice_at, seek_past}
use ignite_python_thin_clien.Ctypes.{
  Fields, struct, sizeof, sizeof_fields, decode, decode_fields, lookup_member, read_int, get_int,
  getattr, length_attr, type_code, type_attr, type_id,
}
use ignite_python_thin_clien.Types.Primitive.{in_range}
use ignite_python_thin_clien.Types.Primitive.Laws.{signed-wrap}
use ignite_python_thin_clien.Types.Sequence.{
  DataType, Layout, counted, coded, typed, identified, layout_fields, length_offset, header_size,
  parse_sequence, read_sequence, read_elements,
}
use ignite_python_thin_clien.Types.Sequence.Laws.{
  Piece, Stores, bytes_of, fields_of, FoundIn, returned_of, parse_elements_lem, read_elements_lem,
  size_elements,
}

-- The bytes of a header with a type code, a type or type id, and a count.
unfoldable pub header_bytes : Layout → (code : ℕ) → (kind : ℤ) → (count : ℕ) → List ℕ
header_bytes counted code kind n = le_bytes 4 n
header_bytes coded code kind n = code ∷ le_bytes 4 n
header_bytes typed code kind n = code ∷ (le_bytes 4 n ++ le_bytes 1 (wrap 1 kind))
header_bytes identified code kind n = code ∷ (le_bytes 4 (wrap 4 kind) ++ le_bytes 4 n)

pub length-header_bytes :
    (layout : Layout) (code : ℕ) (kind : ℤ) (n : ℕ)
    → length (header_bytes layout code kind n) ≡ header_size layout
unfolding header_bytes header_size sizeof
length-header_bytes counted code kind n = length-le_bytes 4 n
length-header_bytes coded code kind n = ap suc (length-le_bytes 4 n)
length-header_bytes typed code kind n = omega (
  arith,
  length-append (le_bytes 4 n) (le_bytes 1 (wrap 1 kind)),
  length-le_bytes 4 n,
  length-le_bytes 1 (wrap 1 kind),
)
length-header_bytes identified code kind n = omega (
  arith,
  length-append (le_bytes 4 (wrap 4 kind)) (le_bytes 4 n),
  length-le_bytes 4 n,
  length-le_bytes 4 (wrap 4 kind),
)

take_count : (n : ℕ) (rest : List ℕ) → take 4 (le_bytes 4 n ++ rest) ≡ le_bytes 4 n
take_count n rest = take-append 4 (le_bytes 4 n) rest (sym (length-le_bytes 4 n))

count_at :
    (layout : Layout) (code : ℕ) (kind : ℤ) (n : ℕ) (rest : List ℕ)
    → take 4 (drop (length_offset layout) (header_bytes layout code kind n ++ rest)) ≡ le_bytes 4 n
unfolding header_bytes length_offset sizeof
count_at counted code kind n rest = take_count n rest
count_at coded code kind n rest = take_count n rest
count_at typed code kind n rest =
    rw (append_assoc (le_bytes 4 n) (le_bytes 1 (wrap 1 kind)) rest) (take_count n _)
count_at identified code kind n rest =
    let id = le_bytes 4 (wrap 4 kind) in
    rw
      (
        append_assoc id (le_bytes 4 n) rest,
        drop-append 4 id (le_bytes 4 n ++ rest) (sym (length-le_bytes 4 (wrap 4 kind))),
      )
      (take_count n rest)

pub size-layout_fields :
    (layout : Layout) (fs : Fields)
    → sizeof (struct (layout_fields layout fs)) ≡ header_size layout + sizeof_fields fs
unfolding layout_fields header_size sizeof
size-layout_fields counted fs = omega arith
size-layout_fields coded fs = omega arith
size-layout_fields typed fs = omega arith
size-layout_fields identified fs = omega arith

-- The elements are found behind the header.
pub elements_found :
    (layout : Layout) (code : ℕ) (kind : ℤ) (n : ℕ) (fs : Fields) (bs : List ℕ)
    → FoundIn 0
        (decode_fields (layout_fields layout fs) (header_bytes layout code kind n ++ bs))
        (decode_fields fs bs)
unfolding header_bytes layout_fields decode sizeof lookup_member
elements_found counted code kind n fs bs k le =
    rw (drop-append 4 (le_bytes 4 n) bs (sym (length-le_bytes 4 n)))
elements_found coded code kind n fs bs k le =
    rw (drop-append 4 (le_bytes 4 n) bs (sym (length-le_bytes 4 n)))
elements_found typed code kind n fs bs k le = rw (
  append_assoc (le_bytes 4 n) (le_bytes 1 (wrap 1 kind)) bs,
  drop-append 4 (le_bytes 4 n) (le_bytes 1 (wrap 1 kind) ++ bs) (sym (length-le_bytes 4 n)),
  drop-append 1 (le_bytes 1 (wrap 1 kind)) bs (sym (length-le_bytes 1 (wrap 1 kind))),
)
elements_found identified code kind n fs bs k le = rw (
  append_assoc (le_bytes 4 (wrap 4 kind)) (le_bytes 4 n) bs,
  drop-append 4 (le_bytes 4 (wrap 4 kind)) (le_bytes 4 n ++ bs)
      (sym (length-le_bytes 4 (wrap 4 kind))),
  drop-append 4 (le_bytes 4 n) bs (sym (length-le_bytes 4 n)),
)

read_count : (n : ℕ) → n < 2 ^ 31 → read_int true 4 (le_bytes 4 n) ≡ pos n
unfolding read_int signed
read_count n h =
    rw (from_bytes-le_bytes 4 n (omega arith)) (rw (lt→ltb (2 * n) (256 ^ 4) (omega arith)) refl)

read_kind :
    (k : ℕ) (z : ℤ) (rest : List ℕ)
    → in_range k z ≡ true
    → read_int true k (take k (le_bytes k (wrap k z) ++ rest)) ≡ z
unfolding read_int
read_kind k z rest h = rw (
  take-append k (le_bytes k (wrap k z)) rest (sym (length-le_bytes k (wrap k z))),
  from_bytes-le_bytes k (wrap k z) (wrap-lt k z),
  signed-wrap k z h,
)

pub count_found :
    (layout : Layout) (code : ℕ) (kind : ℤ) (n : ℕ) (fs : Fields) (bs : List ℕ)
    → n < 2 ^ 31
    → get_int
        (decode (struct (layout_fields layout fs)) (header_bytes layout code kind n ++ bs))
        length_attr
      ≡ ok (pos n)
unfolding header_bytes layout_fields decode getattr sizeof
count_found counted code kind n fs bs h = rw (take_count n bs, read_count n h)
count_found coded code kind n fs bs h = rw (take_count n bs, read_count n h)
count_found typed code kind n fs bs h = rw (
  append_assoc (le_bytes 4 n) (le_bytes 1 (wrap 1 kind)) bs,
  take_count n (le_bytes 1 (wrap 1 kind) ++ bs),
  read_count n h,
)
count_found identified code kind n fs bs h = rw (
  append_assoc (le_bytes 4 (wrap 4 kind)) (le_bytes 4 n) bs,
  drop-append 4 (le_bytes 4 (wrap 4 kind)) (le_bytes 4 n ++ bs)
      (sym (length-le_bytes 4 (wrap 4 kind))),
  take_count n bs,
  read_count n h,
)

-- Layouts that begin with a type code.
abbrev pub IsCoded : Layout → Type 0
IsCoded counted = ⊥
IsCoded _ = Unit {0}

pub code_found :
    (layout : Layout) (code : ℕ) (kind : ℤ) (n : ℕ) (fs : Fields) (bs : List ℕ)
    → code < 128
    → IsCoded layout
    → get_int
        (decode (struct (layout_fields layout fs)) (header_bytes layout code kind n ++ bs))
        type_code
      ≡ ok (pos code)
unfolding header_bytes layout_fields decode getattr sizeof read_int from_bytes signed
code_found counted code kind n fs bs h i = absurd i
code_found coded code kind n fs bs h i = ground arith
code_found typed code kind n fs bs h i = ground arith
code_found identified code kind n fs bs h i = ground arith

pub type_found :
    (code : ℕ) (kind : ℤ) (n : ℕ) (fs : Fields) (bs : List ℕ)
    → in_range 1 kind ≡ true
    → get_int
        (decode (struct (layout_fields typed fs)) (header_bytes typed code kind n ++ bs))
        type_attr
      ≡ ok kind
unfolding header_bytes layout_fields decode getattr sizeof
type_found code kind n fs bs h = rw (
  append_assoc (le_bytes 4 n) (le_bytes 1 (wrap 1 kind)) bs,
  drop-append 4 (le_bytes 4 n) (le_bytes 1 (wrap 1 kind) ++ bs) (sym (length-le_bytes 4 n)),
  read_kind 1 kind bs h,
)

pub type_id_found :
    (code : ℕ) (kind : ℤ) (n : ℕ) (fs : Fields) (bs : List ℕ)
    → in_range 4 kind ≡ true
    → get_int
        (decode (struct (layout_fields identified fs)) (header_bytes identified code kind n ++ bs))
        type_id
      ≡ ok kind
unfolding header_bytes layout_fields decode getattr sizeof
type_id_found code kind n fs bs h = rw (
  append_assoc (le_bytes 4 (wrap 4 kind)) (le_bytes 4 n) bs,
  read_kind 4 kind (le_bytes 4 n ++ bs) h,
)

module _ (cls : DataType) (layout : Layout) (code : ℕ) (kind : ℤ) (n : ℕ) (ps : List Piece) where
  pub sequence_size :
      All (Stores cls) ps
      → length (header_bytes layout code kind n ++ bytes_of ps)
        ≡ sizeof (struct (layout_fields layout (fields_of 0 ps)))
  sequence_size h = omega (
    arith,
    length-append (header_bytes layout code kind n) (bytes_of ps),
    length-header_bytes layout code kind n,
    size-layout_fields layout (fields_of 0 ps),
    size_elements cls ps 0 h,
  )

  -- The header and `times` elements for each that it counts are parsed, and nothing else.
  pub parse_sequence_lem :
      (times : ℕ) (pre rest : List ℕ)
      → All (Stores cls) ps
      → n < 2 ^ 31
      → length ps ≡ times * n
      → parse_sequence layout times cls
          (stream_at pre ((header_bytes layout code kind n ++ bytes_of ps) ++ rest))
        ≡ ok (
          struct (layout_fields layout (fields_of 0 ps)),
          stream_at (pre ++ (header_bytes layout code kind n ++ bytes_of ps)) rest,
        )
  unfolding parse_sequence tell seek_cur
  parse_sequence_lem times pre rest h small same =
      let hb = header_bytes layout code kind n in
      let after = bytes_of ps ++ rest in
      let seen : slice (pos (length pre + length_offset layout)) 4 (stream_at pre (hb ++ after))
          ≡ le_bytes 4 n =
        slice_at pre (hb ++ after) (length_offset layout) 4 ∙ count_at layout code kind n after in
      let skipped : seek_cur (header_size layout) (stream_at pre (hb ++ after))
          ≡ stream_at (pre ++ hb) after =
        seek_past pre hb after (header_size layout) (length-header_bytes layout code kind n) in
      rw (
        append_assoc hb (bytes_of ps) rest,
        seen,
        from_bytes-le_bytes 4 n (omega arith),
        ← same,
        skipped,
        parse_elements_lem cls ps 0 (pre ++ hb) rest h,
        append_assoc pre hb (bytes_of ps),
      )

module _ (cls : DataType) (kind : ℤ) (ps : List Piece) (small : length ps < 2 ^ 31)
    (h : All (Stores cls) ps) where
  -- The elements are read back behind any header.
  pub read_sequence_lem :
      (layout : Layout) (code : ℕ)
      → read_sequence cls (
          decode
            (struct (layout_fields layout (fields_of 0 ps)))
            (header_bytes layout code kind (length ps) ++ bytes_of ps))
        ≡ ok (returned_of ps)
  unfolding read_sequence
  read_sequence_lem layout code =
      let o =
        decode (struct (layout_fields layout (fields_of 0 ps)))
          (header_bytes layout code kind (length ps) ++ bytes_of ps) in
      let found : read_elements cls 0 (length ps) o ≡ ok (returned_of ps) =
        unfold decode in
        read_elements_lem cls ps 0 _ h
          (elements_found layout code kind (length ps) (fields_of 0 ps) (bytes_of ps)) in
      rw (count_found layout code kind (length ps) (fields_of 0 ps) (bytes_of ps) small, found)
