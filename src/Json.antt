-- ===== src/Json.antt =====
-- The JSON library that the clients of the pools use, as a parameter: what they ask of a parsed value.
-- A question that the library refuses for the value's type throws. `operator[]` is `get` with the
-- null value: the null member that it adds to an object is not seen by any later question.
use fpga_ethash.Base.{ℕ, Bool, List, Result}

-- `Json::LogicError` and `Json::RuntimeError`, both standard exceptions.
pub data JsonError : Type 0 where
  logic_error runtime_error : JsonError

pub record Json : Type 1 where
  pub Value : Type 0
  pub null : Value
  pub text : List ℕ → Value
  pub number : ℕ → Value
  pub is_null : Value → Bool
  pub is_bool : Value → Bool
  pub is_string : Value → Bool
  pub is_array : Value → Bool
  pub is_object : Value → Bool
  pub to_bool? : Value → Bool
  pub to_string? : Value → Bool
  pub to_array? : Value → Bool
  pub to_object? : Value → Bool
  pub is_member : Value → List ℕ → Result JsonError Bool
  pub empty : Value → Bool
  pub size : Value → ℕ
  pub get : Value → List ℕ → Value → Result JsonError Value
  pub at : Value → ℕ → Value → Result JsonError Value
  pub as_string : Value → Result JsonError (List ℕ)
  pub as_uint : Value → Result JsonError ℕ
  pub as_bool : Value → Result JsonError Bool
  pub elements : Value → List Value
  pub members : Value → List (List ℕ × Value)
