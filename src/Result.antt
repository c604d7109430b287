-- ===== src/Result.antt =====
-- The Python exceptions that the modelled code raises or lets through, and a call that may raise.
use ignite_python_thin_clien.Base.{◌≡◌, refl, Bool, true, false}

pub data Error : Type 0 where
  struct_error overflow_error type_error value_error unicode_error : Error
  attribute_error key_error index_error assertion_error stop_iteration : Error
  parse_error not_supported_error socket_error handshake_error : Error
  authentication_error reconnect_error cache_error sql_error : Error
  recursion_error : Error

pub data Result {ℓ} (A : Type ℓ) : Type ℓ where
  err : Error → Result A
  ok : A → Result A

-- if not test: raise raised
abbrev pub guard : (test : Bool) (raised : Error) → Result (Unit {0})
guard false raised = err raised
guard true raised = ok tt

-- A call, and what is done with its value unless it has raised.
infixl 5 ◌>>=◌
abbrev pub ◌>>=◌ {ℓ κ} :
    {A : Type ℓ} {B : Type κ} (call : Result A) (after : A → Result B) → Result B
err raised >>= after = err raised
ok value >>= after = after value

infixl 5 ◌>>◌
abbrev pub ◌>>◌ {κ} : {B : Type κ} (call : Result (Unit {0})) (after : Result B) → Result B
err raised >> after = err raised
ok tt >> after = after

-- A chain that returns has returned from its first call.
pub >>=-eq-ok {ℓ κ} :
    {A : Type ℓ} {B : Type κ} (call : Result A) (after : A → Result B) {last : B}
    (done : call >>= after ≡ ok last)
    → (value : A) × (call ≡ ok value) × (after value ≡ ok last)
>>=-eq-ok (err raised) after done = cc
>>=-eq-ok (ok value) after done = (value, refl, done)
