-- ===== src/Scoring/Numbers.antt =====
-- The floats of src/ai_verification/document_scoring and evidence_quality: the operations that they use,
-- and what Python documents of the comparison and of `round`.
use core_engine_ge_m.Base.{◌≡◌, ℕ, String, Bool, true, false, not, ◌||◌, List, if◌then◌else◌}

pub record Floats {ℓ} (F : Type ℓ) : Type ℓ where
  -- A literal, or a value that is kept as it is spelled.
  pub float : String → F
  -- The float of a whole number.
  pub whole : ℕ → F
  pub plus : F → F → F
  pub minus : F → F → F
  pub times : F → F → F
  pub over : F → F → F
  -- The builtin `sum`.
  pub sum : List F → F
  pub lt : F → F → Bool
  -- `math.isnan` and `math.isinf`
  pub is_nan : F → Bool
  pub is_infinite : F → Bool
  -- `round`, to so many decimals
  pub round_to : ℕ → F → F
  -- The format with so many decimals
  pub fixed : ℕ → F → String

module _ {ℓ} {F : Type ℓ} ⦃d : Floats F⦄ where
  -- `max(0.0, min(100.0, score))`
  abbrev pub clamp_low : F → F
  clamp_low m = if d.lt (d.float "0.0") m then m else d.float "0.0"

  unfoldable pub clamp : F → F
  clamp score = clamp_low (if d.lt score (d.float "100.0") then score else d.float "100.0")

  -- What `DocumentScore` lets through: `ge=0.0, le=100.0`.
  abbrev pub in_score_range : F → Bool
  in_score_range score = not (d.lt score (d.float "0.0") || d.lt (d.float "100.0") score)

-- Two floats are never each below the other, 0.0 is below 100.0, and `round` keeps the order and both of
-- these.
pub record IsOrdered {ℓ} (F : Type ℓ) ⦃d : Floats F⦄ : Type ℓ where
  pub lt_asym : (x y : F) → d.lt x y ≡ true → d.lt y x ≡ false
  pub zero-lt : d.lt (d.float "0.0") (d.float "100.0") ≡ true
  pub round_mono :
      (n : ℕ) (x y : F) → d.lt y x ≡ false → d.lt (d.round_to n y) (d.round_to n x) ≡ false
  pub round-zero : d.round_to 2 (d.float "0.0") ≡ d.float "0.0"
  pub round-hundred : d.round_to 2 (d.float "100.0") ≡ d.float "100.0"
