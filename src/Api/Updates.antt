-- ===== src/Api/Updates.antt =====
-- The functions of pyignite/api/key_value.py that put values into a cache.
use ignite_python_thin_clien.Base.{[], ◌∷◌, ℤ, Option, none, some}
use ignite_python_thin_clien.Ctypes.{value, success}
use ignite_python_thin_clien.Value.{Value}
use ignite_python_thin_clien.Types.Primitive.{bool_type}
use ignite_python_thin_clien.Types.Sequence.{DataType}
use ignite_python_thin_clien.Types.Complex.{map_payload}
use ignite_python_thin_clien.Types.Any.Guess.{any_data_object, element_type, hint_or}
use ignite_python_thin_clien.Query.{CacheInfo}
use ignite_python_thin_clien.Api
use ignite_python_thin_clien.Api.{
  Request, info, object, cache_info, key, keys, pairs, sample, peek_modes, info_field, object_field,
  member, payload, byte_array_payload, peek_list,
}
use ignite_python_thin_clien.Value.{ClassName}

module _ (classes : ClassName → DataType) where
  abbrev any : DataType
  any = any_data_object classes

  abbrev map_of_any : DataType
  map_of_any = map_payload (element_type classes)

  unfoldable pub cache_put :
      CacheInfo → Value → Value → Option DataType → Option DataType → Option ℤ → Request
  cache_put i k v k_hint v_hint id = record {
    query = record {
      op_code = 1001;
      following =
          info_field
          ∷ object_field key (hint_or any k_hint)
          ∷ object_field Api.value (hint_or any v_hint)
          ∷ [];
      query_id = id;
    };
    query_params = (cache_info, info i) ∷ (key, object k) ∷ (Api.value, object v) ∷ [];
    response_config = [];
    post_process = none;
  }

  unfoldable pub cache_put_all : CacheInfo → Value → Option ℤ → Request
  cache_put_all i ps id = record {
    query = record {
      op_code = 1004;
      following = info_field ∷ object_field pairs map_of_any ∷ [];
      query_id = id;
    };
    query_params = (cache_info, info i) ∷ (pairs, object ps) ∷ [];
    response_config = [];
    post_process = none;
  }

  unfoldable pub cache_get_and_put :
      CacheInfo → Value → Value → Option DataType → Option DataType → Option ℤ → Request
  cache_get_and_put i k v k_hint v_hint id = record {
    query = record {
      op_code = 1005;
      following =
          info_field
          ∷ object_field key (hint_or any k_hint)
          ∷ object_field Api.value (hint_or any v_hint)
          ∷ [];
      query_id = id;
    };
    query_params = (cache_info, info i) ∷ (key, object k) ∷ (Api.value, object v) ∷ [];
    response_config = member value any ∷ [];
    post_process = some value;
  }

  unfoldable pub cache_get_and_replace :
      CacheInfo → Value → Value → Option DataType → Option DataType → Option ℤ → Request
  cache_get_and_replace i k v k_hint v_hint id = record {
    query = record {
      op_code = 1006;
      following =
          info_field
          ∷ object_field key (hint_or any k_hint)
          ∷ object_field Api.value (hint_or any v_hint)
          ∷ [];
      query_id = id;
    };
    query_params = (cache_info, info i) ∷ (key, object k) ∷ (Api.value, object v) ∷ [];
    response_config = member value any ∷ [];
    post_process = some value;
  }

  unfoldable pub cache_put_if_absent :
      CacheInfo → Value → Value → Option DataType → Option DataType → Option ℤ → Request
  cache_put_if_absent i k v k_hint v_hint id = record {
    query = record {
      op_code = 1002;
      following =
          info_field
          ∷ object_field key (hint_or any k_hint)
          ∷ object_field Api.value (hint_or any v_hint)
          ∷ [];
      query_id = id;
    };
    query_params = (cache_info, info i) ∷ (key, object k) ∷ (Api.value, object v) ∷ [];
    response_config = member success (payload bool_type) ∷ [];
    post_process = some success;
  }

  unfoldable pub cache_get_and_put_if_absent :
      CacheInfo → Value → Value → Option DataType → Option DataType → Option ℤ → Request
  cache_get_and_put_if_absent i k v k_hint v_hint id = record {
    query = record {
      op_code = 1008;
      following =
          info_field
          ∷ object_field key (hint_or any k_hint)
          ∷ object_field Api.value (hint_or any v_hint)
          ∷ [];
      query_id = id;
    };
    query_params = (cache_info, info i) ∷ (key, object k) ∷ (Api.value, object v) ∷ [];
    response_config = member value any ∷ [];
    post_process = some value;
  }

  unfoldable pub cache_replace :
      CacheInfo → Value → Value → Option DataType → Option DataType → Option ℤ → Request
  cache_replace i k v k_hint v_hint id = record {
    query = record {
      op_code = 1009;
      following =
          info_field
          ∷ object_field key (hint_or any k_hint)
          ∷ object_field Api.value (hint_or any v_hint)
          ∷ [];
      query_id = id;
    };
    query_params = (cache_info, info i) ∷ (key, object k) ∷ (Api.value, object v) ∷ [];
    response_config = member success (payload bool_type) ∷ [];
    post_process = some success;
  }

  unfoldable pub cache_replace_if_equals :
      CacheInfo
      → Value
      → Value
      → Value
      → Option DataType
      → Option DataType
      → Option DataType
      → Option ℤ
      → Request
  cache_replace_if_equals i k w v k_hint w_hint v_hint id = record {
    query = record {
      op_code = 1010;
      following =
          info_field
          ∷ object_field key (hint_or any k_hint)
          ∷ object_field sample (hint_or any w_hint)
          ∷ object_field Api.value (hint_or any v_hint)
          ∷ [];
      query_id = id;
    };
    query_params =
        (cache_info, info i) ∷ (key, object k) ∷ (sample, object w) ∷ (Api.value, object v) ∷ [];
    response_config = member success (payload bool_type) ∷ [];
    post_process = some success;
  }
