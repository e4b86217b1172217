-- ===== src/Outcome.antt =====
-- The errors that package signer returns, and the result of a Go call that may return one or panic.
use horcrux.Prelude.{ℤ, String, Bytes, Bool, ◌≡◌, refl}
use horcrux.Hrs.{HrsKey}

-- The typed errors of signer/sign_state.go and signer/threshold_validator.go. `message` is an error
-- of `errors.New` or `fmt.Errorf`, `wrapped` one that wraps another by `%w`.
pub data Error : Type 0 where
  height_regression : (regressed last : ℤ) → Error
  round_regression : (height regressed last : ℤ) → Error
  step_regression : (height round regressed last : ℤ) → Error
  empty_sign_bytes : Error
  same_hrs : HrsKey → Error
  unmarshal_error : (name sign_type : String) → Error
  already_signed_vote : (non_first : Bool) → Error
  diff_block_ids : (first second : Bytes) → Error
  conflicting_data : (existing new : Bytes) → Error
  beyond_block : (chain_id : String) → (latest block : HrsKey) → Error
  still_waiting_for_block : (chain_id : String) → HrsKey → Error
  same_block : (chain_id : String) → HrsKey → Error
  message : String → Error
  wrapped : String → Error → Error

pub data Outcome {ℓ} (A : Type ℓ) : Type ℓ where
  ok : A → Outcome A
  err : Error → Outcome A
  panic : String → Outcome A

infixl 5 ◌>>=◌ ◌>>◌
abbrev pub ◌>>=◌ {ℓ κ} : {A : Type ℓ} {B : Type κ} → Outcome A → (A → Outcome B) → Outcome B
ok a >>= f = f a
err e >>= f = err e
panic m >>= f = panic m

abbrev pub ◌>>◌ {ℓ} : {B : Type ℓ} → Outcome (Unit {0}) → Outcome B → Outcome B
m >> k = m >>= λ _. k

-- The cases of a call whose result is not written out.
pub data Split {ℓ} {A : Type ℓ} (r : Outcome A) : Type ℓ where
  returned : (a : A) → r ≡ ok a → Split r
  failed : (e : Error) → r ≡ err e → Split r
  panicked : (m : String) → r ≡ panic m → Split r

pub Outcome-cases {ℓ} : {A : Type ℓ} (r : Outcome A) → Split r
Outcome-cases (ok a) = returned a refl
Outcome-cases (err e) = failed e refl
Outcome-cases (panic m) = panicked m refl
