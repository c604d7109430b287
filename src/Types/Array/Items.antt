-- ===== src/Types/Array/Items.antt =====
-- The items of an array, as bytes and as they are written.
use ignite_python_thin_clien.Base.{
  ℕ, suc, ◌*◌, ◌^◌, ◌<◌, ◌≡◌, refl, sym, ap, arith, true, List, [], ◌∷◌, ◌++◌, length, map, ℤ, All,
  length-append, take-append, drop-append, lt→ltb,
}
use native.Mathlib.Nat.{mul-suc}
use ignite_python_thin_clien.Base.Bytes.{
  le_bytes, wrap, wrap-lt, from_bytes-le_bytes, length-le_bytes,
}
use ignite_python_thin_clien.Result.{ok}
use ignite_python_thin_clien.Stream.{Stream, write}
use ignite_python_thin_clien.Stream.Writes.{write-write}
use ignite_python_thin_clien.Ctypes.{read_int, read_ints}
use ignite_python_thin_clien.Value.{Value, int, list, of_list, iterate, to_list-of_list}
use ignite_python_thin_clien.Types.Primitive
use ignite_python_thin_clien.Types.Primitive.{
  Primitive, byte, short, int_type, long, char, bool_type, width, in_range, pack, struct_pack,
  to_bytes,
}
use ignite_python_thin_clien.Types.Primitive.Laws.{signed-wrap}
use ignite_python_thin_clien.Types.Array.{
  array_code, write_length, write_items, write_object, take_items,
}

-- ShortArrayObject, IntArrayObject and LongArrayObject.
abbrev pub IsWide : Primitive → Type 0
IsWide short = Unit {0}
IsWide int_type = Unit {0}
IsWide long = Unit {0}
IsWide _ = ⊥

abbrev pub item_bytes : ℕ → List ℤ → List ℕ
item_bytes k [] = []
item_bytes k (z ∷ zs) = le_bytes k (wrap k z) ++ item_bytes k zs

abbrev pub array_bytes : Primitive → List ℤ → List ℕ
array_bytes p zs = array_code p ∷ (le_bytes 4 (length zs) ++ item_bytes (width p) zs)

abbrev pub InRange : ℕ → List ℤ → Type 0
InRange k zs = All (λ z. in_range k z ≡ true) zs

length-map_int : (zs : List ℤ) → length (map int zs) ≡ length zs
length-map_int [] = refl
length-map_int (z ∷ zs) = ap suc (length-map_int zs)

pub length-item_bytes : (k : ℕ) (zs : List ℤ) → length (item_bytes k zs) ≡ k * length zs
length-item_bytes k [] = omega arith
length-item_bytes k (z ∷ zs) = omega (
  arith,
  length-append (le_bytes k (wrap k z)) (item_bytes k zs),
  length-le_bytes k (wrap k z),
  length-item_bytes k zs,
  mul-suc k (length zs),
)

pub read_ints-item_bytes :
    (k : ℕ) (zs : List ℤ) → InRange k zs → read_ints true k (length zs) (item_bytes k zs) ≡ zs
unfolding read_ints
read_ints-item_bytes k [] h = refl
read_ints-item_bytes k (z ∷ zs) (hz, hzs) =
    let size = sym (length-le_bytes k (wrap k z)) in
    rw
      (
        take-append k (le_bytes k (wrap k z)) (item_bytes k zs) size,
        drop-append k (le_bytes k (wrap k z)) (item_bytes k zs) size,
        read_ints-item_bytes k zs hzs,
      )
      (unfold read_int in
        rw (from_bytes-le_bytes k (wrap k z) (wrap-lt k z), signed-wrap k z hz) refl)

pub take_items-all : (zs : List ℤ) → take_items (length zs) zs ≡ ok zs
unfolding take_items
take_items-all [] = refl
take_items-all (z ∷ zs) = rw (take_items-all zs)

pack_wide :
    (p : Primitive) (z : ℤ)
    → IsWide p
    → in_range (width p) z ≡ true
    → pack p (int z) ≡ ok (le_bytes (width p) (wrap (width p) z))
unfolding pack struct_pack
pack_wide short z i h = rw h
pack_wide int_type z i h = rw h
pack_wide long z i h = rw h
pack_wide byte z i h = absurd i
pack_wide char z i h = absurd i
pack_wide bool_type z i h = absurd i

write_items_lem :
    (p : Primitive) (s : Stream) (zs : List ℤ)
    → IsWide p
    → InRange (width p) zs
    → write_items p s (map int zs) ≡ ok (write s (item_bytes (width p) zs))
unfolding write_items Primitive.from_python write
write_items_lem p s [] i h = refl
write_items_lem p s (z ∷ zs) i (hz, hzs) =
    let bs = le_bytes (width p) (wrap (width p) z) in
    rw
      (
        pack_wide p z i hz,
        write_items_lem p (write s bs) zs i hzs,
        write-write s bs (item_bytes (width p) zs),
      )
      refl

-- A count is written as four bytes.
pub write_length_lem :
    (s : Stream) (n : ℕ) → n < 2 ^ 31 → write_length s n ≡ ok (write s (le_bytes 4 n))
unfolding write_length to_bytes
write_length_lem s n h = rw (lt→ltb n (256 ^ 4) (omega arith))

iterate_ints : (zs : List ℤ) → iterate (list (of_list (map int zs))) ≡ ok (map int zs)
unfolding iterate
iterate_ints zs = ap ok (to_list-of_list (map int zs))

-- Whatever iterates over integers is written as their array.
pub write_iterated :
    (p : Primitive) (s : Stream) (v : Value) (zs : List ℤ)
    → iterate v ≡ ok (map int zs)
    → IsWide p
    → InRange (width p) zs
    → length zs < 2 ^ 31
    → write_object p s v ≡ ok (write s (array_bytes p zs))
unfolding write_object
write_iterated byte s v zs e i h l = absurd i
write_iterated p s v zs e i h l =
    let front = array_code p ∷ [] in
    rw (
      e,
      length-map_int zs,
      write_length_lem (write s front) (length zs) l,
      write_items_lem p (write (write s front) (le_bytes 4 (length zs))) zs i h,
      write-write s front (le_bytes 4 (length zs)),
      write-write s (front ++ le_bytes 4 (length zs)) (item_bytes (width p) zs),
    )

pub write_wide :
    (p : Primitive) (s : Stream) (zs : List ℤ)
    → IsWide p
    → InRange (width p) zs
    → length zs < 2 ^ 31
    → write_object p s (list (of_list (map int zs))) ≡ ok (write s (array_bytes p zs))
write_wide p s zs i h l =
    write_iterated p s (list (of_list (map int zs))) zs (iterate_ints zs) i h l
