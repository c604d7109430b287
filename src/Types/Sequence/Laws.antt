-- ===== src/Types/Sequence/Laws.antt =====
-- Elements that are written, parsed and read one after the other.
use ignite_python_thin_clien.Base.{
  ℕ, suc, ◌≤◌, ◌≡◌, refl, sym, ap, ◌∙◌, arith, List, [], ◌∷◌, ◌++◌, length, ◌==◌, false, All,
  length-append, drop-append, append-nil, append_assoc, ==_refl,
}
use ignite_python_thin_clien.Result.{ok}
use ignite_python_thin_clien.Stream.{Stream, write}
use ignite_python_thin_clien.Stream.Writes.{write-write}
use ignite_python_thin_clien.Stream.Laws.{stream_at}
use ignite_python_thin_clien.Ctypes.{
  CType, Fields, Members, members, field, end, element, sizeof, sizeof_fields, decode,
  decode_fields, lookup_member, getattr,
}
use ignite_python_thin_clien.Ctypes.Laws.{decode-append}
use ignite_python_thin_clien.Value.{Value, Values, nil, cons}
use ignite_python_thin_clien.Types.Sequence.{
  DataType, parse_elements, read_elements, write_elements,
}

-- A value, the bytes and the structure it is stored in, and the value that is read from them.
pub record Piece : Type 0 where
  pub given : Value
  pub stored : List ℕ
  pub c_type : CType
  pub returned : Value

-- A data type stores a piece: it writes it wherever a stream stands, and parses and reads it back
-- whatever stands before and after it.
pub record Stores (cls : DataType) (p : Piece) : Type 0 where
  pub writes : (s : Stream) → cls.from_python s p.given ≡ ok (write s p.stored)
  pub parses :
      (pre rest : List ℕ)
      → cls.parse (stream_at pre (p.stored ++ rest))
        ≡ ok (p.c_type, stream_at (pre ++ p.stored) rest)
  pub size : length p.stored ≡ sizeof p.c_type
  pub reads : cls.to_python (decode p.c_type p.stored) ≡ ok p.returned

-- The half of it that is about reading.
pub record Reads (cls : DataType) (p : Piece) : Type 0 where
  pub parses :
      (pre rest : List ℕ)
      → cls.parse (stream_at pre (p.stored ++ rest))
        ≡ ok (p.c_type, stream_at (pre ++ p.stored) rest)
  pub size : length p.stored ≡ sizeof p.c_type
  pub reads : cls.to_python (decode p.c_type p.stored) ≡ ok p.returned

unfoldable pub bytes_of : List Piece → List ℕ
bytes_of [] = []
bytes_of (p ∷ ps) = p.stored ++ bytes_of ps

unfoldable pub fields_of : ℕ → List Piece → Fields
fields_of i [] = end
fields_of i (p ∷ ps) = field (element i) p.c_type (fields_of (suc i) ps)

unfoldable pub given_of : List Piece → List Value
given_of [] = []
given_of (p ∷ ps) = p.given ∷ given_of ps

unfoldable pub returned_of : List Piece → Values
returned_of [] = nil
returned_of (p ∷ ps) = cons p.returned (returned_of ps)

pub length-given_of : (ps : List Piece) → length (given_of ps) ≡ length ps
unfolding given_of
length-given_of [] = refl
length-given_of (p ∷ ps) = ap suc (length-given_of ps)

-- The elements from `i` on are found as in `found`.
abbrev pub FoundIn : ℕ → Members → Members → Type 0
FoundIn i ms found =
    (k : ℕ) → i ≤ k → lookup_member (element k) ms ≡ lookup_member (element k) found

module _ (cls : DataType) where
  pub write_elements_lem :
      (ps : List Piece) (s : Stream)
      → All (Stores cls) ps
      → write_elements cls s (given_of ps) ≡ ok (write s (bytes_of ps))
  unfolding write_elements given_of bytes_of write
  write_elements_lem [] s h = refl
  write_elements_lem (p ∷ ps) s (h, hs) = rw (
    h.writes s,
    write_elements_lem ps (write s p.stored) hs,
    write-write s p.stored (bytes_of ps),
  )

  pub parse_elements_lem :
      (ps : List Piece) (i : ℕ) (pre rest : List ℕ)
      → All (Stores cls) ps
      → parse_elements cls i (length ps) (stream_at pre (bytes_of ps ++ rest))
        ≡ ok (fields_of i ps, stream_at (pre ++ bytes_of ps) rest)
  unfolding parse_elements fields_of bytes_of
  parse_elements_lem [] i pre rest h = ap (λ l. ok (end, stream_at l rest)) (sym (append-nil pre))
  parse_elements_lem (p ∷ ps) i pre rest (h, hs) = rw (
    append_assoc p.stored (bytes_of ps) rest,
    h.parses pre (bytes_of ps ++ rest),
    parse_elements_lem ps (suc i) (pre ++ p.stored) rest hs,
    append_assoc pre p.stored (bytes_of ps),
  )

  pub size_elements :
      (ps : List Piece) (i : ℕ)
      → All (Stores cls) ps
      → length (bytes_of ps) ≡ sizeof_fields (fields_of i ps)
  unfolding bytes_of fields_of sizeof_fields
  size_elements [] i h = refl
  size_elements (p ∷ ps) i (h, hs) =
      omega (arith, length-append p.stored (bytes_of ps), h.size, size_elements ps (suc i) hs)

  -- The first element is found, and the others behind it.
  pub decode_first :
      (p : Piece) (ps : List Piece) (i : ℕ) (ms : Members)
      → Stores cls p
      → FoundIn i ms (decode_fields (fields_of i (p ∷ ps)) (bytes_of (p ∷ ps)))
      → (getattr (members ms) (element i) ≡ ok (decode p.c_type p.stored))
        × FoundIn (suc i) ms (decode_fields (fields_of (suc i) ps) (bytes_of ps))
  unfolding bytes_of fields_of decode_fields lookup_member getattr
  decode_first p ps i ms h found = (
    found i (omega arith)
        ∙ rw (==_refl i, decode-append p.c_type p.stored (bytes_of ps) (omega (arith, h.size))),
    λ k le.
        (let later : (k == i) ≡ false = ground arith in
          found k (omega arith)
          ∙ rw (later, drop-append (sizeof p.c_type) p.stored (bytes_of ps) (sym h.size))),
  )

  pub read_elements_lem :
      (ps : List Piece) (i : ℕ) (ms : Members)
      → All (Stores cls) ps
      → FoundIn i ms (decode_fields (fields_of i ps) (bytes_of ps))
      → read_elements cls i (length ps) (members ms) ≡ ok (returned_of ps)
  unfolding read_elements returned_of
  read_elements_lem [] i ms h found = refl
  read_elements_lem (p ∷ ps) i ms (h, hs) found =
      let step = decode_first p ps i ms h found in
      rw (step.0, h.reads, read_elements_lem ps (suc i) ms hs step.1)
