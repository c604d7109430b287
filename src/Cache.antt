-- ===== src/Cache.antt =====
-- `Cache` of pyignite/cache.py, `unwrap_binary` of client.py and `status_to_exception` of utils.py.
-- Reading a complex object from the bytes it is wrapped in is a parameter, and so is what becomes of
-- a request that is sent over the node that `get_best_node` chooses for a key with its class, or for
-- no key.
pub mod Intact
use ignite_python_thin_clien.Base.{
  ℕ, Bool, true, false, List, [], ◌∷◌, ℤ, pos, negsuc, eq_ℤ, if◌then◌else◌, Option, none, some,
}
use ignite_python_thin_clien.Result.{
  Result, ok, err, cache_error, attribute_error, not_supported_error, ◌>>=◌, ◌>>◌, guard,
}
use ignite_python_thin_clien.Value.{
  Value, Values, Entries, nil, cons, empty, entry, ClassName, none_value, bool, int, bytes, list,
  tuple, dict, ordered_dict, truthy,
}
use ignite_python_thin_clien.Value.Equality.{set_item}
use ignite_python_thin_clien.Connection.Protocol.{is_expiry_policy_supported}
use ignite_python_thin_clien.Types.Sequence.{DataType}
use ignite_python_thin_clien.Types.Any.Guess.{map_python_type}
use ignite_python_thin_clien.Query.{CacheInfo, ExpiryPolicy, new_policy}
use ignite_python_thin_clien.Api.{Request, Outcome}
use ignite_python_thin_clien.Api.Reads.{
  cache_get, cache_get_all, cache_contains_key, cache_contains_keys, cache_get_size,
}
use ignite_python_thin_clien.Api.Updates.{
  cache_put, cache_put_all, cache_get_and_put, cache_get_and_replace, cache_put_if_absent,
  cache_get_and_put_if_absent, cache_replace, cache_replace_if_equals,
}
use ignite_python_thin_clien.Api.Removals.{
  cache_get_and_remove, cache_clear, cache_clear_key, cache_clear_keys, cache_remove_key,
  cache_remove_if_equals, cache_remove_keys, cache_remove_all,
}

-- process_result(result) of status_to_exception(CacheError)
unfoldable pub status_to_exception : Outcome → Result Value
status_to_exception r = if eq_ℤ r.status (pos 0) then ok r.value else err cache_error

-- with_expire_policy(expiry_policy, create, update, access), of durations that are integers: the
-- `CacheInfo` of the new cache.
unfoldable pub with_expire_policy :
    CacheInfo → Option ExpiryPolicy → (create update access : ℤ) → Result CacheInfo
unfolding new_policy
with_expire_policy i policy create update access =
    guard (is_expiry_policy_supported i.protocol_context) not_supported_error
    >> (elim policy [ some p ↦ ok p | none ↦ new_policy create update access ] >>= λ p.
        ok (record i { expiry_policy = some p }))

-- isinstance(value, int)
abbrev is_int : Value → Bool
is_int (int z) = true
is_int (bool b) = true
is_int _ = false

module _ (unwrap_object : List ℕ → ℤ → Result Value) where
  -- unwrap_binary(value)
  unfoldable mutual
    unfolding set_item

    pub unwrap_binary : Value → Result Value
    unwrap_binary (tuple (cons (bytes blob) (cons (int offset) nil))) = unwrap_object blob offset
    unwrap_binary (tuple (cons t (cons (list vs) nil))) =
        let unwrapped = unwrap_all vs in
        if is_int t
        then (unwrapped >>= λ ws. ok (tuple (cons t (cons (list ws) nil))))
        else ok (tuple (cons t (cons (list vs) nil)))
    unwrap_binary (tuple (cons t (cons (dict es) nil))) =
        let unwrapped = unwrap_entries es empty in
        if is_int t
        then (unwrapped >>= λ fs. ok (tuple (cons t (cons (dict fs) nil))))
        else ok (tuple (cons t (cons (dict es) nil)))
    unwrap_binary (tuple (cons t (cons (ordered_dict es) nil))) =
        let unwrapped = unwrap_entries es empty in
        if is_int t
        then (unwrapped >>= λ fs. ok (tuple (cons t (cons (dict fs) nil))))
        else ok (tuple (cons t (cons (ordered_dict es) nil)))
    unwrap_binary v = ok v

    pub unwrap_all : Values → Result Values
    unwrap_all nil = ok nil
    unwrap_all (cons v vs) = do w ← unwrap_binary v; ws ← unwrap_all vs; ok (cons w ws)

    pub unwrap_entries : Entries → Entries → Result Entries
    unwrap_entries empty result = ok result
    unwrap_entries (entry k v es) result = do
      k' ← unwrap_binary k
      v' ← unwrap_binary v
      result' ← set_item result k' v'
      unwrap_entries es result'

  -- result.value = self.client.unwrap_binary(result.value)
  unfoldable pub unwrapped : Outcome → Result Outcome
  unfolding unwrap_binary
  unwrapped r = do v ← unwrap_binary r.value; ok (record r { value = v })

  -- The values of a dict, each under its own key.
  unfoldable pub unwrap_values : Entries → Result Entries
  unfolding unwrap_binary
  unwrap_values empty = ok empty
  unwrap_values (entry k v es) = do w ← unwrap_binary v; fs ← unwrap_values es; ok (entry k w fs)

  -- The loop of get_all over `result.value.items()`
  unfoldable pub unwrap_items : Outcome → Result Outcome
  unfolding unwrap_values
  unwrap_items r =
      if truthy r.value
      then elim r.value [
        | dict es ↦ do fs ← unwrap_values es; ok (record r { value = dict fs })
        | ordered_dict es ↦ do fs ← unwrap_values es; ok (record r { value = ordered_dict fs })
        | _ ↦ err attribute_error
      ]
      else ok r

-- key_hint, or AnyDataObject.map_python_type(key) where it is None
unfoldable pub key_class : Value → Option ClassName → Result ClassName
unfolding map_python_type
key_class key (some c) = ok c
key_class key none = map_python_type key

module _ (cls : ClassName → DataType) (unwrap_object : List ℕ → ℤ → Result Value)
    (send : Option (Value × ClassName) → Request → Result Outcome) (i : CacheInfo) where
  abbrev type_of_hint : Option ClassName → Option DataType
  type_of_hint none = none
  type_of_hint (some c) = some (cls c)

  unfoldable pub get : Value → Option ClassName → Result Value
  unfolding cache_get status_to_exception key_class unwrapped
  get key key_hint = do
    c ← key_class key key_hint
    r ← send (some (key, c)) (cache_get cls i key (some (cls c)) none)
    r' ← unwrapped unwrap_object r
    status_to_exception r'

  unfoldable pub put : Value → Value → Option ClassName → Option ClassName → Result Value
  unfolding cache_put status_to_exception key_class
  put key value key_hint value_hint = do
    c ← key_class key key_hint
    r ←
        send (some (key, c))
          (cache_put cls i key value (some (cls c)) (type_of_hint value_hint) none)
    status_to_exception r

  unfoldable pub get_all : Value → Result Value
  unfolding cache_get_all status_to_exception unwrap_items
  get_all keys = do
    r ← send none (cache_get_all cls i keys none)
    r' ← unwrap_items unwrap_object r
    status_to_exception r'

  unfoldable pub put_all : Value → Result Value
  unfolding cache_put_all status_to_exception
  put_all pairs = do r ← send none (cache_put_all cls i pairs none); status_to_exception r

  unfoldable pub replace : Value → Value → Option ClassName → Option ClassName → Result Value
  unfolding cache_replace status_to_exception key_class unwrapped
  replace key value key_hint value_hint = do
    c ← key_class key key_hint
    r ←
        send (some (key, c))
          (cache_replace cls i key value (some (cls c)) (type_of_hint value_hint) none)
    r' ← unwrapped unwrap_object r
    status_to_exception r'

  unfoldable pub clear : Value → Result Value
  unfolding cache_clear cache_clear_keys status_to_exception
  clear keys = do
    r ←
        (if truthy keys
          then send none (cache_clear_keys cls i keys none)
          else send none (cache_clear cls i none))
    status_to_exception r

  unfoldable pub clear_key : Value → Option ClassName → Result Value
  unfolding cache_clear_key status_to_exception key_class
  clear_key key key_hint = do
    c ← key_class key key_hint
    r ← send (some (key, c)) (cache_clear_key cls i key (some (cls c)) none)
    status_to_exception r

  unfoldable pub clear_keys : Value → Result Value
  unfolding cache_clear_keys status_to_exception
  clear_keys keys = do r ← send none (cache_clear_keys cls i keys none); status_to_exception r

  unfoldable pub contains_key : Value → Option ClassName → Result Value
  unfolding cache_contains_key status_to_exception key_class
  contains_key key key_hint = do
    c ← key_class key key_hint
    r ← send (some (key, c)) (cache_contains_key cls i key (some (cls c)) none)
    status_to_exception r

  unfoldable pub contains_keys : Value → Result Value
  unfolding cache_contains_keys status_to_exception
  contains_keys keys = do r ← send none (cache_contains_keys cls i keys none); status_to_exception r

  unfoldable pub get_and_put : Value → Value → Option ClassName → Option ClassName → Result Value
  unfolding cache_get_and_put status_to_exception key_class unwrapped
  get_and_put key value key_hint value_hint = do
    c ← key_class key key_hint
    r ←
        send (some (key, c))
          (cache_get_and_put cls i key value (some (cls c)) (type_of_hint value_hint) none)
    r' ← unwrapped unwrap_object r
    status_to_exception r'

  unfoldable pub get_and_put_if_absent :
      Value → Value → Option ClassName → Option ClassName → Result Value
  unfolding cache_get_and_put_if_absent status_to_exception key_class unwrapped
  get_and_put_if_absent key value key_hint value_hint = do
    c ← key_class key key_hint
    r ←
        send (some (key, c)) (
          cache_get_and_put_if_absent cls i key value (some (cls c)) (type_of_hint value_hint) none)
    r' ← unwrapped unwrap_object r
    status_to_exception r'

  unfoldable pub put_if_absent : Value → Value → Option ClassName → Option ClassName → Result Value
  unfolding cache_put_if_absent status_to_exception key_class
  put_if_absent key value key_hint value_hint = do
    c ← key_class key key_hint
    r ←
        send (some (key, c))
          (cache_put_if_absent cls i key value (some (cls c)) (type_of_hint value_hint) none)
    status_to_exception r

  unfoldable pub get_and_remove : Value → Option ClassName → Result Value
  unfolding cache_get_and_remove status_to_exception key_class unwrapped
  get_and_remove key key_hint = do
    c ← key_class key key_hint
    r ← send (some (key, c)) (cache_get_and_remove cls i key (some (cls c)) none)
    r' ← unwrapped unwrap_object r
    status_to_exception r'

  unfoldable pub get_and_replace :
      Value → Value → Option ClassName → Option ClassName → Result Value
  unfolding cache_get_and_replace status_to_exception key_class unwrapped
  get_and_replace key value key_hint value_hint = do
    c ← key_class key key_hint
    r ←
        send (some (key, c))
          (cache_get_and_replace cls i key value (some (cls c)) (type_of_hint value_hint) none)
    r' ← unwrapped unwrap_object r
    status_to_exception r'

  unfoldable pub remove_key : Value → Option ClassName → Result Value
  unfolding cache_remove_key status_to_exception key_class
  remove_key key key_hint = do
    c ← key_class key key_hint
    r ← send (some (key, c)) (cache_remove_key cls i key (some (cls c)) none)
    status_to_exception r

  unfoldable pub remove_keys : Value → Result Value
  unfolding cache_remove_keys status_to_exception
  remove_keys keys = do r ← send none (cache_remove_keys cls i keys none); status_to_exception r

  unfoldable pub remove_all : Result Value
  unfolding cache_remove_all status_to_exception
  remove_all = do r ← send none (cache_remove_all cls i none); status_to_exception r

  unfoldable pub remove_if_equals :
      Value → Value → Option ClassName → Option ClassName → Result Value
  unfolding cache_remove_if_equals status_to_exception key_class
  remove_if_equals key sample key_hint sample_hint = do
    c ← key_class key key_hint
    r ←
        send (some (key, c))
          (cache_remove_if_equals cls i key sample (some (cls c)) (type_of_hint sample_hint) none)
    status_to_exception r

  unfoldable pub replace_if_equals :
      Value → Value → Value → Option ClassName → Option ClassName → Option ClassName → Result Value
  unfolding cache_replace_if_equals status_to_exception key_class unwrapped
  replace_if_equals key sample value key_hint sample_hint value_hint = do
    c ← key_class key key_hint
    r ← send (some (key, c)) (
        cache_replace_if_equals cls i key sample value (some (cls c)) (type_of_hint sample_hint)
          (type_of_hint value_hint) none)
    r' ← unwrapped unwrap_object r
    status_to_exception r'

  unfoldable pub get_size : Value → Result Value
  unfolding cache_get_size status_to_exception
  get_size peek_modes = do
    r ← send none (cache_get_size cls i peek_modes none)
    status_to_exception r
