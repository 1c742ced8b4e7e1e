-- ===== src/Drift/Values.antt =====
-- The values that `compare_files_mode` of configdiff.py compares in its JSON mode: tagged values, the
-- selected keys and the details about them. JSON decoding with the hooks of `load_json` is an
-- argument of Drift.Modes.
use opsforge.Prelude.{
  Bool, true, false, ◌&&◌, ◌||◌, not, Option, none, some, List, [], ◌∷◌, ◌++◌, Text, ◌==◌, split_on,
  eqb, if◌then◌else◌,
}
use opsforge.Prelude.Dict.{Dict, lookup, put}
use opsforge.Prelude.Ordered.{sorted_by}
use opsforge.Result.{Result, value, error}
use opsforge.Health.Json.{
  Json, null, boolean, natural, below_zero, real, string, array, object, Items, nil, cons, Fields,
  end, field,
}
use opsforge.Drift.{Failure, invalid_target, nesting_too_deep, invalid_content}
use opsforge.Drift.Contents.{canonical_json, select}

pub data Detail : Type 0 where
  absent_key : (key : Text) (in_baseline in_current : Bool) → Detail
  diff_skipped : Detail

-- What `load_json` comes to: a value, a `RecursionError` or another error.
pub data Loaded (F : Type 0) : Type 0 where
  loaded : Json F → Loaded F
  too_deep malformed : Loaded F

unfoldable pub same_texts : List Text → List Text → Bool
same_texts [] [] = true
same_texts (s ∷ ss) (t ∷ ts) = s == t && same_texts ss ts
same_texts _ _ = false

unfoldable pub same_bool : Bool → Bool → Bool
same_bool true b = b
same_bool false b = not b

module _ {F : Type 0} (same_float : F → F → Bool) where
  unfoldable mutual
    -- Equality of tagged values.
    pub same_json : Json F → Json F → Bool
    same_json null null = true
    same_json (boolean a) (boolean b) = same_bool a b
    same_json (natural m) (natural n) = eqb m n
    same_json (below_zero m) (below_zero n) = eqb m n
    same_json (real x) (real y) = same_float x y
    same_json (string s) (string t) = s == t
    same_json (array xs) (array ys) = same_items xs ys
    same_json (object f) (object g) = same_fields f g
    same_json _ _ = false

    pub same_items : Items F → Items F → Bool
    same_items nil nil = true
    same_items (cons j xs) (cons k ys) = same_json j k && same_items xs ys
    same_items _ _ = false

    pub same_fields : Fields F → Fields F → Bool
    same_fields end end = true
    same_fields (field k i f) (field n j g) = k == n && (same_json i j && same_fields f g)
    same_fields _ _ = false

  unfoldable pub same_json? : Option (Json F) → Option (Json F) → Bool
  unfolding same_json
  same_json? none none = true
  same_json? (some j) (some k) = same_json (canonical_json j) (canonical_json k)
  same_json? _ _ = false

  -- `_selected_json`
  unfoldable pub selected_json :
      Json F → List Text → Dict (Option (Json F)) → Dict (Option (Json F))
  selected_json document [] selected = selected
  selected_json document (key ∷ keys) selected =
      selected_json document keys (put key (select (split_on 46 key) (some document)) selected)

  abbrev pub pair_name : Text × Option (Json F) → Text
  pair_name p = p.0

  unfoldable pub same_pairs : Dict (Option (Json F)) → Dict (Option (Json F)) → Bool
  unfolding same_json?
  same_pairs [] [] = true
  same_pairs ((k, i) ∷ d) ((n, j) ∷ e) = k == n && (same_json? i j && same_pairs d e)
  same_pairs _ _ = false

  abbrev pub is_missing : Option (Option (Json F)) → Bool
  is_missing (some (some j)) = false
  is_missing _ = true

  -- `for key in selected_keys`
  unfoldable pub absences :
      Dict (Option (Json F)) → Dict (Option (Json F)) → List Text → List Detail
  absences left right [] = []
  absences left right (key ∷ keys) =
      (if is_missing (lookup key left) || is_missing (lookup key right)
        then absent_key key (is_missing (lookup key left)) (is_missing (lookup key right)) ∷ []
        else [])
      ++ absences left right keys

  -- Whether two values differ, with the details.
  unfoldable pub compare_json : List Text → Json F → Json F → Bool × List Detail
  unfolding same_json?
  compare_json [] left right = (not (same_json? (some left) (some right)), [])
  compare_json (key ∷ keys) left right =
      let l = selected_json left (key ∷ keys) [] in
      let r = selected_json right (key ∷ keys) [] in
      (not (same_pairs (sorted_by pair_name l) (sorted_by pair_name r)), absences l r (key ∷ keys))

  unfoldable pub compare_loaded :
      List Text → Loaded F → Loaded F → Result Failure (Bool × List Detail)
  unfolding compare_json
  compare_loaded keys (loaded left) (loaded right) = value (compare_json keys left right)
  compare_loaded keys too_deep right = error (invalid_target nesting_too_deep none)
  compare_loaded keys malformed right = error (invalid_target invalid_content none)
  compare_loaded keys (loaded left) too_deep = error (invalid_target nesting_too_deep none)
  compare_loaded keys (loaded left) malformed = error (invalid_target invalid_content none)
