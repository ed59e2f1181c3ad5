-- ===== src/Types/Value.antt =====
-- JSON values as serde_json hands them over. A number of serde_json is a token that only the
-- parameter `as_f64` reads. An object's members stand in the order of its iteration.
use reql.Base.{ℕ, Text, Bool}

mutual
  pub data Value : Type 0 where
    null : Value
    bool : Bool → Value
    number : ℕ → Value
    string : Text → Value
    array : Values → Value
    object : Members → Value

  pub data Values : Type 0 where
    no_values : Values
    a_value : Value → Values → Values

  pub data Members : Type 0 where
    no_members : Members
    member : Text → Value → Members → Members
