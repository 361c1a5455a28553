-- ===== src/Params/Values.antt =====
-- The values of parameters, and what is used of encoding/json, strconv and regexp.
use fusion_wizard.Prelude.{Bool, List, Option, Text, Assoc}
use fusion_wizard.Action.{Result}

-- The `any` of a resolved parameter: string, float64, bool, []string or []map[string]string. A
-- number is kept as the decimal text that `FormatFloat(x, 'f', -1, 64)` gives it, which is all that
-- the program reads of it.
pub data Value : Type 0 where
  text_value : Text → Value
  number_value : Text → Value
  bool_value : Bool → Value
  list_value : List Text → Value
  objects_value : List (Assoc Text) → Value

-- `json.Unmarshal` into each of the types (`none` is its error), `json.Marshal` of an object
-- list, and `regexp.Compile` with the `MatchString` of what it compiles.
pub record Codec : Type 0 where
  pub unmarshal_text : Text → Option Text
  pub unmarshal_number : Text → Option Text
  pub unmarshal_bool : Text → Option Bool
  pub unmarshal_list : Text → Option (List Text)
  pub unmarshal_objects : Text → Option (List (Assoc Text))
  pub marshal_objects : List (Assoc Text) → Text
  pub compile : Text → Result (Text → Bool)
