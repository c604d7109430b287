-- ===== src/Api/Reads.antt =====
-- The functions of pyignite/api/key_value.py that read a cache.
use ignite_python_thin_clien.Base.{[], ◌∷◌, ℤ, Option, some}
use ignite_python_thin_clien.Ctypes.{value, data_attr, count}
use ignite_python_thin_clien.Value.{Value}
use ignite_python_thin_clien.Types.Primitive.{bool_type, long}
use ignite_python_thin_clien.Types.Sequence.{DataType}
use ignite_python_thin_clien.Types.Complex.{map_payload}
use ignite_python_thin_clien.Types.Any.Guess.{
  any_data_object, any_data_array, element_type, hint_or,
}
use ignite_python_thin_clien.Query.{CacheInfo}
use ignite_python_thin_clien.Api.{
  Request, info, object, cache_info, key, keys, peek_modes, info_field, object_field, member,
  payload, byte_array_payload, peek_list,
}
use ignite_python_thin_clien.Value.{ClassName}

module _ (classes : ClassName → DataType) where
  abbrev any : DataType
  any = any_data_object classes

  abbrev map_of_any : DataType
  map_of_any = map_payload (element_type classes)

  unfoldable pub cache_get : CacheInfo → Value → Option DataType → Option ℤ → Request
  cache_get i k k_hint id = record {
    query = record {
      op_code = 1000;
      following = info_field ∷ object_field key (hint_or any k_hint) ∷ [];
      query_id = id;
    };
    query_params = (cache_info, info i) ∷ (key, object k) ∷ [];
    response_config = member value any ∷ [];
    post_process = some value;
  }

  unfoldable pub cache_get_all : CacheInfo → Value → Option ℤ → Request
  cache_get_all i ks id = record {
    query = record {
      op_code = 1003;
      following = info_field ∷ object_field keys (any_data_array classes) ∷ [];
      query_id = id;
    };
    query_params = (cache_info, info i) ∷ (keys, object ks) ∷ [];
    response_config = member data_attr map_of_any ∷ [];
    post_process = some data_attr;
  }

  unfoldable pub cache_contains_key : CacheInfo → Value → Option DataType → Option ℤ → Request
  cache_contains_key i k k_hint id = record {
    query = record {
      op_code = 1011;
      following = info_field ∷ object_field key (hint_or any k_hint) ∷ [];
      query_id = id;
    };
    query_params = (cache_info, info i) ∷ (key, object k) ∷ [];
    response_config = member value (payload bool_type) ∷ [];
    post_process = some value;
  }

  unfoldable pub cache_contains_keys : CacheInfo → Value → Option ℤ → Request
  cache_contains_keys i ks id = record {
    query = record {
      op_code = 1012;
      following = info_field ∷ object_field keys (any_data_array classes) ∷ [];
      query_id = id;
    };
    query_params = (cache_info, info i) ∷ (keys, object ks) ∷ [];
    response_config = member value (payload bool_type) ∷ [];
    post_process = some value;
  }

  unfoldable pub cache_get_size : CacheInfo → Value → Option ℤ → Request
  unfolding peek_list
  cache_get_size i modes id = record {
    query = record {
      op_code = 1020;
      following = info_field ∷ object_field peek_modes byte_array_payload ∷ [];
      query_id = id;
    };
    query_params = (cache_info, info i) ∷ (peek_modes, object (peek_list modes)) ∷ [];
    response_config = member count (payload long) ∷ [];
    post_process = some count;
  }

  unfoldable pub cache_local_peek : CacheInfo → Value → Value → Option DataType → Option ℤ → Request
  unfolding peek_list
  cache_local_peek i k modes k_hint id = record {
    query = record {
      op_code = 1021;
      following =
          info_field
          ∷ object_field key (hint_or any k_hint)
          ∷ object_field peek_modes byte_array_payload
          ∷ [];
      query_id = id;
    };
    query_params =
        (cache_info, info i) ∷ (key, object k) ∷ (peek_modes, object (peek_list modes)) ∷ [];
    response_config = member value any ∷ [];
    post_process = some value;
  }
