-- ===== src/Errors.antt =====
-- errors.go, and the results of Go functions: a value, an error, a panic, or no return at all.
-- An error whose text is formatted is kept as the arguments of its format.
pub mod Text
use azure_service_bus_go.Prelude.{◌≡◌, ◌⊎◌, inl, inr, refl, arith, Option, none, some, String}
use azure_service_bus_go.Prelude.Int.{ℤ}
use azure_service_bus_go.Amqp.Dynamic.{Value, Bytes, GoType, type_of}

-- rpc.Response, of azure-amqp-common-go, as far as the code reads it.
pub record Response : Type 0 where
  pub code : ℤ
  pub description : String
  pub value : Value

pub record ErrIncorrectType : Type 0 where
  pub key : String
  pub expected_type : Option GoType
  pub actual_value : Value

pub data Error : Type 0 where
  -- ErrMissingField, ErrIncorrectType, ErrAMQP, ErrNoMessages
  missing_field : String → Error
  incorrect_type : ErrIncorrectType → Error
  amqp_response : Response → Error
  no_messages : Error
  -- errors.New, and fmt.Errorf with the arguments that the format shows
  plain : String → Error
  invalid_delivery_tag : Bytes → Error
  unknown_tag_key : String → Error
  renewing_locks : String → Error
  amqp_status : ℤ → String → Error
  management_error : ℤ → String → Error
  -- ctx.Err(), *amqp.Error, *amqp.DetachError, and any other error of a called library
  context_done : Error
  amqp_error : String → Error
  detach_error : String → Error
  foreign : String → Error

-- newErrIncorrectType
unfoldable pub new_err_incorrect_type : String → Value → Value → ErrIncorrectType
new_err_incorrect_type key expected actual = record {
  key = key;
  expected_type = type_of expected;
  actual_value = actual;
}

pub data Fault : Type 0 where
  nil_pointer index_out_of_range type_assertion : Fault

-- `blocked`: the goroutine waits for ever.
pub data Exec {ℓ} (A : Type ℓ) : Type ℓ where
  ok : A → Exec A
  err : Error → Exec A
  panic : Fault → Exec A
  blocked : Exec A

-- What a called library returns that is known to return: a value, or an error.
pub data Answer {ℓ} (A : Type ℓ) : Type ℓ where
  got : A → Answer A
  failed : Error → Answer A

infixl 5 ◌>>=◌ ◌>>◌
abbrev pub ◌>>=◌ {ℓ κ} : {A : Type ℓ} {B : Type κ} → Exec A → (A → Exec B) → Exec B
ok x >>= k = k x
err e >>= k = err e
panic fault >>= k = panic fault
blocked >>= k = blocked

abbrev pub ◌>>◌ {ℓ} : {B : Type ℓ} → Exec (Unit {0}) → Exec B → Exec B
first >> second = first >>= (λ _. second)

-- Dereference of a pointer, and `s[i]`.
abbrev pub deref {ℓ} : {A : Type ℓ} → Option A → Exec A
deref none = panic nil_pointer
deref (some a) = ok a

abbrev pub at_index {ℓ} : {A : Type ℓ} → Option A → Exec A
at_index none = panic index_out_of_range
at_index (some a) = ok a

pub Answer-cases {ℓ} :
    {A : Type ℓ} (answer : Answer A)
    → ((e : Error) × (answer ≡ failed e)) ⊎ ((a : A) × (answer ≡ got a))
Answer-cases (failed e) = inl (e, refl)
Answer-cases (got a) = inr (a, refl)

-- `if err != nil { return err }` after a call.
abbrev pub from_answer {ℓ} : {A : Type ℓ} → Answer A → Exec A
from_answer (got a) = ok a
from_answer (failed e) = err e

abbrev pub from_error : Option Error → Exec (Unit {0})
from_error none = ok tt
from_error (some e) = err e

pub from_answer-eq-ok {ℓ} :
    {A : Type ℓ} (answer : Answer A) {a : A} → from_answer answer ≡ ok a → answer ≡ got a
from_answer-eq-ok answer h = ground arith

pub from_error-eq-ok : (e : Option Error) → from_error e ≡ ok tt → e ≡ none
from_error-eq-ok e h = ground arith

-- Inversion of a successful bind.
pub >>=-eq-ok {ℓ κ} :
    {A : Type ℓ} {B : Type κ} (first : Exec A) (k : A → Exec B) {result : B}
    → (first >>= k) ≡ ok result
    → (between : A) × (first ≡ ok between) × (k between ≡ ok result)
>>=-eq-ok (ok x) k done = (x, refl, done)
>>=-eq-ok (err e) k done = cc
>>=-eq-ok (panic x) k done = cc
>>=-eq-ok blocked k done = cc
