-- ===== src/Health/Json.antt =====
-- A JSON document as `json.loads` of healthctl.py gives it. `F` is the type of Python's floats.
use opsforge.Prelude.{ℕ, Bool, Option, none, some, List, [], ◌∷◌, Text, ◌==◌, if◌then◌else◌}

mutual
  pub data Json (F : Type 0) : Type 0 where
    null : Json F
    boolean : Bool → Json F
    natural : ℕ → Json F
    -- an int below zero, by its distance
    below_zero : ℕ → Json F
    real : F → Json F
    string : Text → Json F
    array : Items F → Json F
    object : Fields F → Json F

  pub data Items (F : Type 0) : Type 0 where
    nil : Items F
    cons : Json F → Items F → Items F

  -- the fields of a dict, with distinct keys
  pub data Fields (F : Type 0) : Type 0 where
    end : Fields F
    field : Text → Json F → Fields F → Fields F

module _ {F : Type 0} where
  unfoldable pub elements : Items F → List (Json F)
  elements nil = []
  elements (cons j items) = j ∷ elements items

  -- `mapping.get(key)`
  unfoldable pub get : Text → Fields F → Option (Json F)
  get key end = none
  get key (field k j fields) = if k == key then some j else get key fields

  unfoldable pub keys : Fields F → List Text
  keys end = []
  keys (field k j fields) = k ∷ keys fields
