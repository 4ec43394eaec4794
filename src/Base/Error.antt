-- ===== src/Base/Error.antt =====
-- include/mmxisf/error.hpp and include/mmxisf/result.hpp: error codes, errors and results, with
-- the early return on an error as the bind of a monad.
use Prim.Native.Nat.{ℕ}
use Prim.Native.String.{String}
use mathlib.Core.Path.{◌≡◌, refl}
use mathlib.Core.Bool.{Bool, true, false}
use mathlib.Core.Option.{Option, none}
use mathlib.Core.List.{List}

pub data ErrorCode : Type 0 where
  io_error invalid_signature invalid_preamble header_too_large malformed_xml : ErrorCode
  resource_limit invalid_xisf unsupported_feature invalid_block checksum_mismatch : ErrorCode
  invalid_argument overflow cancelled internal_error : ErrorCode

pub record Error : Type 0 where
  pub code : ErrorCode
  pub message : String
  pub byte_offset : Option ℕ
  pub image_index : Option ℕ
  pub element : String
  pub attribute : String

abbrev pub make_error : ErrorCode → String → Error
make_error code message = record {
  code = code;
  message = message;
  byte_offset = none;
  image_index = none;
  element = "";
  attribute = "";
}

pub data Result {ℓ} (A : Type ℓ) : Type ℓ where
  ok : A → Result A
  err : Error → Result A

abbrev pub fail {ℓ} : {A : Type ℓ} → ErrorCode → String → Result A
fail code message = err (make_error code message)

-- `if (test) return make_error(code, message);`
abbrev pub reject_if : Bool → ErrorCode → String → Result (Unit {0})
reject_if false code message = ok tt
reject_if true code message = fail code message

infixl 5 ◌>>=◌ ◌>>◌
-- `if (!result) return result.error();`, and the rest of the function on its value
abbrev pub ◌>>=◌ {ℓ ℓ'} : {A : Type ℓ} {B : Type ℓ'} → Result A → (A → Result B) → Result B
err error >>= rest = err error
ok value >>= rest = rest value

abbrev pub ◌>>◌ {ℓ} : {A : Type ℓ} → Result (Unit {0}) → Result A → Result A
check >> rest = check >>= λ passed. rest

-- The value that a successful run went on with.
pub >>=-eq-ok {ℓ ℓ'} :
    {A : Type ℓ} {B : Type ℓ'} (result : Result A) (rest : A → Result B) {done : B}
    → (result >>= rest) ≡ ok done
    → (value : A) × (result ≡ ok value) × (rest value ≡ ok done)
>>=-eq-ok (err error) rest e = cc
>>=-eq-ok (ok value) rest e = (value, refl, e)

pub reject_if-eq-ok {ℓ} :
    {B : Type ℓ} (test : Bool) (code : ErrorCode) (message : String) (k : Result B) {b : B}
    → (reject_if test code message >> k) ≡ ok b
    → (test ≡ false) × (k ≡ ok b)
reject_if-eq-ok true code message k h = cc
reject_if-eq-ok false code message k h = (refl, h)

-- `std::stop_token`: the answer at each poll, addressed by the loop counters around the poll, so
-- that every poll has an answer of its own.
abbrev pub StopToken : Type 0
StopToken = List ℕ → Bool

-- Stop is never requested.
abbrev pub Never : StopToken → Type 0
Never stop = (poll : List ℕ) → stop poll ≡ false

pub ok-injective {ℓ} : {A : Type ℓ} {a b : A} → ok a ≡ ok b → a ≡ b
ok-injective p = cc
