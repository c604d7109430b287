-- ===== src/Cache/Intact.antt =====
-- What `Client.unwrap_binary` of pyignite/client.py leaves as it is.
use ignite_python_thin_clien.Base.{
  ◌≡◌, refl, arith, Bool, true, false, ◌&&◌, List, ℕ, ℤ, if◌then◌else◌,
}
use ignite_python_thin_clien.Result.{Result, ok}
use ignite_python_thin_clien.Value.{
  Value, Values, Entries, nil, cons, empty, entry, bool, int, bytes, list, tuple, dict,
  ordered_dict,
}
use ignite_python_thin_clien.Value.Equality.{hashable, eq_key, put, set_item}
use ignite_python_thin_clien.Cache.{unwrap_binary, unwrap_all, unwrap_entries}

-- No key of the entries is equal to this one.
unfoldable pub is_new : Entries → Value → Bool
is_new empty k = true
is_new (entry k' v' es) k = if eq_key k k' then false else is_new es k

unfoldable pub append : Entries → Entries → Entries
append empty fs = fs
append (entry k v es) fs = entry k v (append es fs)

-- There is no pair of bytes and an offset where `unwrap_binary` looks for one, and no `OrderedDict`,
-- which it would make a dict; and the dicts there are dicts: their keys can be keys, and differ.
unfoldable mutual
  unfolding append

  pub is_plain : Value → Bool
  is_plain (tuple (cons (bytes blob) (cons (int offset) nil))) = false
  is_plain (tuple (cons (int t) (cons (list vs) nil))) = all_plain vs
  is_plain (tuple (cons (bool t) (cons (list vs) nil))) = all_plain vs
  is_plain (tuple (cons (int t) (cons (dict es) nil))) = entries_plain empty es
  is_plain (tuple (cons (bool t) (cons (dict es) nil))) = entries_plain empty es
  is_plain (tuple (cons (int t) (cons (ordered_dict es) nil))) = false
  is_plain (tuple (cons (bool t) (cons (ordered_dict es) nil))) = false
  is_plain _ = true

  pub all_plain : Values → Bool
  all_plain nil = true
  all_plain (cons v vs) = is_plain v && all_plain vs

  pub entries_plain : Entries → Entries → Bool
  entries_plain before empty = true
  entries_plain before (entry k v es) =
      hashable k
      && (is_new before k
          && (is_plain k && (is_plain v && entries_plain (append before (entry k v empty)) es)))

put-append :
    (es : Entries) (k v : Value) → is_new es k ≡ true → put es k v ≡ append es (entry k v empty)
unfolding put append is_new
put-append empty k v h = refl
put-append (entry k' v' es) k v h = ground (arith, put-append es k v)

append_assoc : (es fs gs : Entries) → append (append es fs) gs ≡ append es (append fs gs)
unfolding append
append_assoc empty fs gs = refl
append_assoc (entry k v es) fs gs = rw (append_assoc es fs gs)

append_empty : (es : Entries) → append es empty ≡ es
unfolding append
append_empty empty = refl
append_empty (entry k v es) = rw (append_empty es)

both : (a b : Bool) → a && b ≡ true → (a ≡ true) × (b ≡ true)
both true b h = (refl, h)
both false b h = ground arith

module _ (unwrap_object : List ℕ → ℤ → Result Value) where
  mutual
    unfolding unwrap_binary is_plain set_item append

    unwrap_plain : (v : Value) → is_plain v ≡ true → unwrap_binary unwrap_object v ≡ ok v
    unwrap_plain (tuple (cons (bytes blob) (cons (int offset) nil))) h = ground arith
    unwrap_plain (tuple (cons (int t) (cons (list vs) nil))) h = rw (unwrap_all_plain vs h)
    unwrap_plain (tuple (cons (bool t) (cons (list vs) nil))) h = rw (unwrap_all_plain vs h)
    unwrap_plain (tuple (cons (int t) (cons (dict es) nil))) h =
        rw (unwrap_entries_plain empty es h)
    unwrap_plain (tuple (cons (bool t) (cons (dict es) nil))) h =
        rw (unwrap_entries_plain empty es h)
    unwrap_plain (tuple (cons t (cons (list vs) nil))) h = refl
    unwrap_plain (tuple (cons t (cons (dict es) nil))) h = refl
    unwrap_plain (tuple (cons (int t) (cons (ordered_dict es) nil))) h = ground arith
    unwrap_plain (tuple (cons (bool t) (cons (ordered_dict es) nil))) h = ground arith
    unwrap_plain (tuple (cons t (cons (ordered_dict es) nil))) h = refl
    unwrap_plain _ h = refl

    unwrap_all_plain : (vs : Values) → all_plain vs ≡ true → unwrap_all unwrap_object vs ≡ ok vs
    unwrap_all_plain nil h = refl
    unwrap_all_plain (cons v vs) h =
        let hs = both (is_plain v) (all_plain vs) h in
        rw (unwrap_plain v hs.0, unwrap_all_plain vs hs.1)

    unwrap_entries_plain :
        (before es : Entries)
        → entries_plain before es ≡ true
        → unwrap_entries unwrap_object es before ≡ ok (append before es)
    unwrap_entries_plain before empty h = rw (append_empty before)
    unwrap_entries_plain before (entry k v es) h =
        let a = both (hashable k) _ h in
        let b = both (is_new before k) _ a.1 in
        let c = both (is_plain k) _ b.1 in
        let d = both (is_plain v) _ c.1 in
        rw (
          unwrap_plain k c.0,
          unwrap_plain v d.0,
          a.0,
          put-append before k v b.0,
          unwrap_entries_plain (append before (entry k v empty)) es d.1,
          append_assoc before (entry k v empty) es,
        )

  -- `unwrap_binary` of a value gives that value, if unwrapping meets no pair of bytes and an offset
  -- and no pair of an integer and an `OrderedDict` in it, and the keys of each dict that it rebuilds are hashable and no two of them are equal.
  pub unwrap_binary-intact : (v : Value) → is_plain v ≡ true → unwrap_binary unwrap_object v ≡ ok v
  unwrap_binary-intact v h = unwrap_plain v h
