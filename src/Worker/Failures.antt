-- ===== src/Worker/Failures.antt =====
-- src/infrastructure/errors.py: how a failure is classified and whether it is tried again. An
-- exception is known by the first class that `classify_failure` tests for, with its message. Delays
-- and the multiplier are whole numbers of the range of a float; the rounding of a float above 2 ^ 53
-- is not modelled, its overflow is.
use core_engine_ge_m.Base.{
  ℕ, ◌*◌, ◌-◌, ◌^◌, ◌<◌, ◌≤◌, min, ◌≡◌, ◌↔◌, refl, String, Bool, true, false, not, ◌&&◌, ◌⊎◌,
  Outcome, ok, raised, if◌then◌else◌, ltb, leb, arith, Bool-cases, inl, inr,
}

pub data FailureKind : Type 0 where
  transient_infrastructure provider_unavailable malformed_domain_data permanent_validation
        programming_error :
      FailureKind

pub data Exc : Type 0 where
  -- `ProcessingError` and its subclasses, with their kind.
  processing : FailureKind → String → Exc
  -- `TimeoutError`, `ConnectionError`, `OSError`.
  os_error : String → Exc
  -- The `ValidationError` of pydantic.
  validation : String → Exc
  value : String → Exc
  other : String → Exc

-- `str(exc)`
abbrev pub message : Exc → String
message (processing kind text) = text
message (os_error text) = text
message (validation text) = text
message (value text) = text
message (other text) = text

abbrev pub kind_name : FailureKind → String
kind_name transient_infrastructure = "TRANSIENT_INFRASTRUCTURE"
kind_name provider_unavailable = "PROVIDER_UNAVAILABLE"
kind_name malformed_domain_data = "MALFORMED_DOMAIN_DATA"
kind_name permanent_validation = "PERMANENT_VALIDATION"
kind_name programming_error = "PROGRAMMING_ERROR"

-- `kind in RETRYABLE_KINDS`
abbrev pub retryable_kind : FailureKind → Bool
retryable_kind transient_infrastructure = true
retryable_kind provider_unavailable = true
retryable_kind _ = false

abbrev pub classify_failure : Exc → FailureKind
classify_failure (processing kind text) = kind
classify_failure (os_error text) = transient_infrastructure
classify_failure (validation text) = permanent_validation
classify_failure (value text) = malformed_domain_data
classify_failure (other text) = programming_error

pub record RetryPolicy : Type 0 where
  pub max_attempts : ℕ
  pub base_delay : ℕ
  pub multiplier : ℕ
  pub max_delay : ℕ

-- What `__post_init__` lets through.
abbrev pub valid_policy : RetryPolicy → Bool
valid_policy p = leb 1 p.max_attempts && leb 1 p.multiplier

-- The first whole number that rounds to 2 ^ 1024, which a float does not hold.
unfoldable pub float_limit : ℕ
float_limit = (2 ^ 54 - 1) * 2 ^ 970

-- `OverflowError`, of the result or of the exponent; no branch of `classify_failure` names it.
abbrev pub overflow : ℕ → Exc
overflow exponent =
    if ltb exponent float_limit
    then other "(34, 'Numerical result out of range')"
    else other "int too large to convert to float"

-- The power of two floats is a float, and so is its exponent.
abbrev pub fits : ℕ → ℕ → Bool
fits base exponent = ltb exponent float_limit && ltb (base ^ exponent) float_limit

-- `self.multiplier ** (attempt - 1)` raises where the result is out of range; the product that follows
-- is at worst infinite, and the longest delay is then the smaller.
abbrev pub float_power : ℕ → ℕ → Outcome Exc ℕ
float_power base exponent =
    if fits base exponent then ok (base ^ exponent) else raised (overflow exponent)

abbrev pub capped : RetryPolicy → Outcome Exc ℕ → Outcome Exc ℕ
capped p (raised e) = raised e
capped p (ok power) = ok (min (p.base_delay * power) p.max_delay)

-- `ValueError` for an attempt before the first.
unfoldable pub delay_for_attempt : RetryPolicy → ℕ → Outcome Exc ℕ
delay_for_attempt p attempt =
    if ltb attempt 1
    then raised (value "attempt must be >= 1")
    else capped p (float_power p.multiplier (attempt - 1))

pub record FailureDecision : Type 0 where
  pub kind : FailureKind
  pub can_be_retried : Bool
  pub retry_delay : ℕ
  pub text : String

abbrev pub is_retried : RetryPolicy → Exc → ℕ → Bool
is_retried p exc attempt = retryable_kind (classify_failure exc) && ltb attempt p.max_attempts

abbrev pub decided : Exc → Bool → Outcome Exc ℕ → Outcome Exc FailureDecision
decided exc retried (raised e) = raised e
decided exc retried (ok delay) = ok (record {
  kind = classify_failure exc;
  can_be_retried = retried;
  retry_delay = delay;
  text = message exc;
})

unfoldable pub decide_failure : RetryPolicy → Exc → ℕ → Outcome Exc FailureDecision
unfolding delay_for_attempt
decide_failure p exc attempt =
    let retried = is_retried p exc attempt in
    decided exc retried (if retried then delay_for_attempt p attempt else ok 0)

abbrev decision : Exc → Bool → ℕ → FailureDecision
decision exc retried delay = record {
  kind = classify_failure exc;
  can_be_retried = retried;
  retry_delay = delay;
  text = message exc;
}

decided-retried :
    (p : RetryPolicy) (exc : Exc) (attempt : ℕ)
    → 1 ≤ attempt
    → is_retried p exc attempt ≡ true
    → fits p.multiplier (attempt - 1) ≡ true
    → decide_failure p exc attempt
      ≡ ok (decision exc true (min (p.base_delay * p.multiplier ^ (attempt - 1)) p.max_delay))
unfolding decide_failure delay_for_attempt
decided-retried p exc attempt first r f =
    let late : ltb attempt 1 ≡ false = ground arith in rw (r, late, f) refl

decided-overflow :
    (p : RetryPolicy) (exc : Exc) (attempt : ℕ)
    → 1 ≤ attempt
    → is_retried p exc attempt ≡ true
    → fits p.multiplier (attempt - 1) ≡ false
    → decide_failure p exc attempt ≡ raised (overflow (attempt - 1))
unfolding decide_failure delay_for_attempt
decided-overflow p exc attempt first r f =
    let late : ltb attempt 1 ≡ false = ground arith in rw (r, late, f) refl

decided-final :
    (p : RetryPolicy) (exc : Exc) (attempt : ℕ)
    → is_retried p exc attempt ≡ false
    → decide_failure p exc attempt ≡ ok (decision exc false 0)
unfolding decide_failure
decided-final p exc attempt r = rw r refl

min_le : (a b : ℕ) → min a b ≤ b
min_le a b = ground arith

-- What is decided of a numbered attempt: a decision, unless the failure is to be tried again and the
-- power of the multiplier is out of the range of a float.
abbrev pub Decides : RetryPolicy → Exc → ℕ → Type 0
Decides p exc attempt =
    ((d : FailureDecision) × (decide_failure p exc attempt ≡ ok d)
      × (d.kind ≡ classify_failure exc)
      × ((d.can_be_retried ≡ true) ↔ ((retryable_kind d.kind ≡ true) × (attempt < p.max_attempts)))
      × (d.retry_delay ≡ (
          if d.can_be_retried
          then min (p.base_delay * p.multiplier ^ (attempt - 1)) p.max_delay
          else 0))
      × ((d.can_be_retried && not (fits p.multiplier (attempt - 1))) ≡ false))
    ⊎ ((decide_failure p exc attempt ≡ raised (overflow (attempt - 1)))
        × (retryable_kind (classify_failure exc) ≡ true)
        × (attempt < p.max_attempts)
        × (fits p.multiplier (attempt - 1) ≡ false))

-- For a numbered attempt `decide_failure` either has a decision or raises OverflowError. It decides to
-- try again exactly when the failure is transient or a provider was unavailable and the attempt is not
-- the last that the policy allows; the delay is then the base times the power of the multiplier, at
-- most the longest, and there is none otherwise. It raises exactly when it would decide to try again
-- and that power is too large for a float.
pub decide_failure_lem :
    (p : RetryPolicy) (exc : Exc) (attempt : ℕ) → 1 ≤ attempt → Decides p exc attempt
decide_failure_lem p exc attempt first = elim (Bool-cases (is_retried p exc attempt)) [
  | inl again ↦ elim (Bool-cases (fits p.multiplier (attempt - 1))) [
    | inl fit ↦ inl (
      decision exc true (min (p.base_delay * p.multiplier ^ (attempt - 1)) p.max_delay),
      decided-retried p exc attempt first again fit,
      refl,
      ground arith,
      refl,
      rw fit refl,
    )
    | inr over ↦
        inr (decided-overflow p exc attempt first again over, ground arith, ground arith, over)
  ]
  | inr last ↦
      inl (decision exc false 0, decided-final p exc attempt last, refl, ground arith, refl, refl)
]
