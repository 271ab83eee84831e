-- ===== src/Json.antt =====
-- `serde_json::Value`, as the sources take it apart, and what the program takes from outside: the
-- floating-point type and the numbers of `serde_json`, the text of primitive values, the Unicode
-- tables beyond ASCII, the clock, and the world that action callbacks change.
use sig_topo.Base.{ℕ, String, Char, Bool, Option, Result, Ordering}
use sig_topo.Base.Int.{ℤ}

-- `Items` and `Fields` are the vector in an array and the map in an object.
mutual
  pub data Json (N : Type 0) : Type 0 where
    null : Json N
    bool : Bool → Json N
    number : N → Json N
    string : String → Json N
    array : Items N → Json N
    object : Fields N → Json N

  pub data Items (N : Type 0) : Type 0 where
    no_items : Items N
    item : Json N → Items N → Items N

  pub data Fields (N : Type 0) : Type 0 where
    no_fields : Fields N
    field : String → Json N → Fields N → Fields N

pub record Platform : Type 1 where
  -- `f64` and the operations that guards use
  pub Float : Type 0
  pub f_zero : Float
  pub f_add : Float → Float → Float
  pub f_sub : Float → Float → Float
  pub f_mul : Float → Float → Float
  pub f_div : Float → Float → Float
  pub f_neg : Float → Float
  pub f_eq : Float → Float → Bool
  pub partial_cmp : Float → Float → Option Ordering
  pub f_of_i64 : ℤ → Float
  pub parse_f64 : String → Result String Float
  -- `serde_json::Number` and the text of a value
  pub Number : Type 0
  pub as_i64 : Number → Option ℤ
  pub as_f64 : Number → Option Float
  pub number_to_string : Number → String
  pub json_to_string : Json Number → String
  -- `{}` of an integer, `{:?}` of a float and of a string
  pub show_i64 : ℤ → String
  pub debug_f64 : Float → String
  pub debug_str : String → String
  -- the character classes of `char`, asked only beyond ASCII
  pub whitespace : Char → Bool
  pub alphabetic : Char → Bool
  pub numeric : Char → Bool
  -- the reading of the system clock at its n-th use
  pub clock : ℕ → ℕ
  -- everything that action callbacks can see and change
  pub World : Type 0
