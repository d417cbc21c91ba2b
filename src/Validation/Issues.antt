-- ===== src/Validation/Issues.antt =====
-- edlink_rostering/services/validation/_issues.py
use edlink_rostering.Base.{ℕ, String, Bool, true, false, Option, List, [], ◌∷◌}

pub data Severity : Type 0 where
  error warning quarantine : Severity

-- The values of an issue's `detail` dictionary. The quotient of two numbers stands for a float,
-- and the difference of two for an integer that may be negative.
pub data Value : Type 0 where
  null : Value
  text : String → Value
  number : ℕ → Value
  truth : Bool → Value
  quotient : ℕ → ℕ → Value
  difference : ℕ → ℕ → Value
  iso_date iso_naive iso_aware : ℕ → Value

pub record ValidationIssue : Type 0 where
  pub layer : ℕ
  pub code : String
  pub severity : Severity
  pub detail : List (String × Value)
  pub event_id : Option String

-- `issue(layer=..., code=..., severity=..., detail=..., event_id=...)`
abbrev pub issue : ℕ → String → Severity → List (String × Value) → Option String → ValidationIssue
issue l c s d e = record { layer = l; code = c; severity = s; detail = d; event_id = e }

-- `if test: yield issue(...)`
abbrev pub yield_if : Bool → ValidationIssue → List ValidationIssue
yield_if true i = i ∷ []
yield_if false i = []

abbrev pub optional_text : Option String → Value
optional_text Option.none = null
optional_text (Option.some s) = text s
