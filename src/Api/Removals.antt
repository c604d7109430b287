-- ===== src/Api/Removals.antt =====
-- The functions of pyignite/api/key_value.py that clear a cache or remove keys from it.
use ignite_python_thin_clien.Base.{[], ◌∷◌, ℤ, Option, none, some}
use ignite_python_thin_clien.Ctypes.{value, success}
use ignite_python_thin_clien.Value.{Value}
use ignite_python_thin_clien.Types.Primitive.{bool_type}
use ignite_python_thin_clien.Types.Sequence.{DataType}
use ignite_python_thin_clien.Types.Complex.{map_payload}
use ignite_python_thin_clien.Types.Any.Guess.{
  any_data_object, any_data_array, element_type, hint_or,
}
use ignite_python_thin_clien.Query.{CacheInfo}
use ignite_python_thin_clien.Api.{
  Request, info, object, cache_info, key, keys, sample, info_field, object_field, member, payload,
}
use ignite_python_thin_clien.Value.{ClassName}

module _ (classes : ClassName → DataType) where
  abbrev any : DataType
  any = any_data_object classes

  abbrev map_of_any : DataType
  map_of_any = map_payload (element_type classes)

  unfoldable pub cache_get_and_remove : CacheInfo → Value → Option DataType → Option ℤ → Request
  cache_get_and_remove i k k_hint id = record {
    query = record {
      op_code = 1007;
      following = info_field ∷ object_field key (hint_or any k_hint) ∷ [];
      query_id = id;
    };
    query_params = (cache_info, info i) ∷ (key, object k) ∷ [];
    response_config = member value any ∷ [];
    post_process = some value;
  }

  unfoldable pub cache_clear : CacheInfo → Option ℤ → Request
  cache_clear i id = record {
    query = record { op_code = 1013; following = info_field ∷ []; query_id = id };
    query_params = (cache_info, info i) ∷ [];
    response_config = [];
    post_process = none;
  }

  unfoldable pub cache_clear_key : CacheInfo → Value → Option DataType → Option ℤ → Request
  cache_clear_key i k k_hint id = record {
    query = record {
      op_code = 1014;
      following = info_field ∷ object_field key (hint_or any k_hint) ∷ [];
      query_id = id;
    };
    query_params = (cache_info, info i) ∷ (key, object k) ∷ [];
    response_config = [];
    post_process = none;
  }

  unfoldable pub cache_clear_keys : CacheInfo → Value → Option ℤ → Request
  cache_clear_keys i ks id = record {
    query = record {
      op_code = 1015;
      following = info_field ∷ object_field keys (any_data_array classes) ∷ [];
      query_id = id;
    };
    query_params = (cache_info, info i) ∷ (keys, object ks) ∷ [];
    response_config = [];
    post_process = none;
  }

  unfoldable pub cache_remove_key : CacheInfo → Value → Option DataType → Option ℤ → Request
  cache_remove_key i k k_hint id = record {
    query = record {
      op_code = 1016;
      following = info_field ∷ object_field key (hint_or any k_hint) ∷ [];
      query_id = id;
    };
    query_params = (cache_info, info i) ∷ (key, object k) ∷ [];
    response_config = member success (payload bool_type) ∷ [];
    post_process = some success;
  }

  unfoldable pub cache_remove_if_equals :
      CacheInfo → Value → Value → Option DataType → Option DataType → Option ℤ → Request
  cache_remove_if_equals i k w k_hint w_hint id = record {
    query = record {
      op_code = 1017;
      following =
          info_field
          ∷ object_field key (hint_or any k_hint)
          ∷ object_field sample (hint_or any w_hint)
          ∷ [];
      query_id = id;
    };
    query_params = (cache_info, info i) ∷ (key, object k) ∷ (sample, object w) ∷ [];
    response_config = member success (payload bool_type) ∷ [];
    post_process = some success;
  }

  unfoldable pub cache_remove_keys : CacheInfo → Value → Option ℤ → Request
  cache_remove_keys i ks id = record {
    query = record {
      op_code = 1018;
      following = info_field ∷ object_field keys (any_data_array classes) ∷ [];
      query_id = id;
    };
    query_params = (cache_info, info i) ∷ (keys, object ks) ∷ [];
    response_config = [];
    post_process = none;
  }

  unfoldable pub cache_remove_all : CacheInfo → Option ℤ → Request
  cache_remove_all i id = record {
    query = record { op_code = 1019; following = info_field ∷ []; query_id = id };
    query_params = (cache_info, info i) ∷ [];
    response_config = [];
    post_process = none;
  }
