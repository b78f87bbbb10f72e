-- ===== src/Json.antt =====
-- The values of `json.loads`, as the processor inspects them.
use event_pipeline_extension.Prelude.{
  ℕ, zero, ◌%◌, ◌^◌, String, Bool, true, false, not, ◌==◌, string_eq, nat_eq, if◌then◌else◌,
}

-- An integer, as `json.loads` reads one. `negsuc n` is -(n + 1).
pub data ℤ : Type 0 where
  pos : ℕ → ℤ
  negsuc : ℕ → ℤ

-- A float is given by its 64 bits. A `dict` is the list of its items in order.
mutual
  pub data Json : Type 0 where
    null : Json
    bool : Bool → Json
    int : ℤ → Json
    float : ℕ → Json
    str : String → Json
    list : Elements → Json
    dict : Fields → Json

  pub data Elements : Type 0 where
    nil : Elements
    cons : Json → Elements → Elements

  pub data Fields : Type 0 where
    end : Fields
    field : String → Json → Fields → Fields

-- `d.get(name)`; a value `null` and a name that is not there are both `None`.
unfoldable pub get : String → Fields → Json
get name end = null
get name (field k v rest) = if k == name then v else get name rest

-- `if value:`. A float is false if all its bits but the sign are 0.
unfoldable pub truthy : Json → Bool
truthy null = false
truthy (bool b) = b
truthy (int (pos zero)) = false
truthy (int _) = true
truthy (float bits) = not (bits % 2 ^ 63 == 0)
truthy (str s) = not (s == "")
truthy (list nil) = false
truthy (list (cons _ _)) = true
truthy (dict end) = false
truthy (dict (field _ _ _)) = true
