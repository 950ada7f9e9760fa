-- ===== src/Prelude/Errors.antt =====
-- Exceptions as values. Each `raise` of the modelled code has a constructor; the texts of the messages are
-- left out, and the values that they quote are kept where a caller could read them.
use Prim.Native.Nat.{ℕ}
use mathlib.Core.Path.{◌≡◌, refl}
use mathlib.Core.Logic.{◌≢◌, ◌⊎◌, inl, inr}
use mathlib.Core.Bool.{Bool, true, false}
use mathlib.Core.Option.{Option, none, some}
use mathlib.Core.List.{List}
use file_monitor.Prelude.Int.{ℤ}

pub data Error : Type 0 where
  -- raised by the language and its library
  zero_division overflow index_error key_error os_error attribute_error type_error bad_int
        toml_error :
      Error
  -- domain/planning.py
  empty_active_senders : Error
  duplicate_senders : List ℕ → Error
  negative_total_blocks bad_base_port : ℤ → Error
  -- services/planner.py
  bad_shard_modulus bad_sender_index negative_size : Error
  bad_hash_length hash_not_hex path_not_under_root path_escapes : Error
  -- a protobuf message whose field cannot hold the value that it is given
  field_out_of_range : Error
  -- services/watcher.py
  consumer_ended : Error
  -- config.py
  watch_path_not_directory bad_rate_floor bad_rate_ceiling bad_fec too_many_shares : Error
  missing_key bad_fec_order symbol_too_long empty_binary_path bad_sender_count
        base_port_out_of_range :
      Error
  -- ipc
  unknown_message_type decode_error envelope_empty : Error
  handshake_error : List ℕ → Error
  proto_hash_mismatch unknown_sender send_queue_full : ℕ → Error

-- what a call returns, or the exception that it raises
pub data Result {ℓ} (Value : Type ℓ) : Type ℓ where
  err : (raised : Error) → Result Value
  ok : (value : Value) → Result Value

infixl 5 ◌>>=◌
abbrev pub ◌>>=◌ {ℓ ℓ'} : {X : Type ℓ} {Y : Type ℓ'} → Result X → (X → Result Y) → Result Y
err raised >>= next = err raised
ok value >>= next = next value

-- `if test: raise error`
abbrev pub raise_if : Bool → Error → Result (Unit {0})
raise_if true e = err e
raise_if false e = ok tt

infixl 5 ◌>>◌
abbrev pub ◌>>◌ {ℓ} : {Y : Type ℓ} → Result (Unit {0}) → Result Y → Result Y
first >> next = first >>= λ done. next

pub >>=-eq-ok {ℓ ℓ'} :
    {X : Type ℓ} {Y : Type ℓ'} (first : Result X) (next : X → Result Y) {y : Y}
    → (first >>= next) ≡ ok y
    → (x : X) × (first ≡ ok x) × (next x ≡ ok y)
>>=-eq-ok (err raised) next returned = cc
>>=-eq-ok (ok value) next returned = (value, refl, returned)

-- What holds of whatever the rest of a block returns holds of what the block returns.
pub >>=-keeps {ℓ ℓ' κ} :
    {X : Type ℓ} {Y : Type ℓ'} (P : Y → Type κ) (first : Result X) (next : X → Result Y) {y : Y}
    → (first >>= next) ≡ ok y
    → ((x : X) → next x ≡ ok y → P y)
    → P y
>>=-keeps P (err raised) next returned keeps = absurd (cc)
>>=-keeps P (ok x) next returned keeps = keeps x returned

-- A block that got past a test has seen it fail.
pub raise_if-eq-ok {ℓ} :
    {B : Type ℓ} (test : Bool) (e : Error) (k : Result B) {b : B}
    → (raise_if test e >> k) ≡ ok b
    → (test ≡ false) × (k ≡ ok b)
raise_if-eq-ok true e k h = cc
raise_if-eq-ok false e k h = (refl, h)

pub ok-injective {ℓ} : {A : Type ℓ} {a b : A} → ok a ≡ ok b → a ≡ b
ok-injective e = cc

pub err-ne-ok {ℓ} : {A : Type ℓ} {e : Error} {a : A} → err e ≢ ok a
err-ne-ok same = cc

-- a value that may be missing, or an exception
abbrev pub or_raise {ℓ} : {A : Type ℓ} → Option A → Error → Result A
or_raise none e = err e
or_raise (some a) e = ok a

pub or_raise-eq-ok {ℓ κ} :
    {A : Type ℓ} {B : Type κ} (o : Option A) (e : Error) (f : A → Result B) {b : B}
    → (or_raise o e >>= f) ≡ ok b
    → (a : A) × (o ≡ some a) × (f a ≡ ok b)
or_raise-eq-ok none e f h = cc
or_raise-eq-ok (some a) e f h = (a, refl, h)

pub Result-cases {ℓ} :
    {A : Type ℓ} (r : Result A) → ((a : A) × (r ≡ ok a)) ⊎ ((e : Error) × (r ≡ err e))
Result-cases (ok a) = inl (a, refl)
Result-cases (err e) = inr (e, refl)
