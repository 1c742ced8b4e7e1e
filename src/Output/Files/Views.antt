-- ===== src/Output/Files/Views.antt =====
-- The loop of `_write_and_sync` in common/output.py over the bytes that each `os.write` takes.
use mathlib.Core.List.{append-nil, append_assoc}
use opsforge.Prelude.{
  ℕ, zero, suc, ◌-◌, ◌≤◌, ◌<◌, ◌≡◌, refl, ap, sym, ◌∙◌, none, List, [], ◌∷◌, ◌++◌, arith, Text, All,
  length, take, drop, take-append-drop,
}
use opsforge.Output.Files.{Faults, write_view}

module _ (faults : Faults) where
  -- A loop that ends without an exception has written all of the bytes, however few each call takes.
  pub write_view_of_end :
      (counts : List ℕ) (begun view : Text)
      → (write_view faults counts begun view).1 ≡ none
      → (write_view faults counts begun view).0 ≡ begun ++ view
  unfolding write_view
  write_view_of_end counts begun [] h = sym (append-nil begun)
  write_view_of_end [] begun (c ∷ view) h = absurd (ground arith)
  write_view_of_end (count ∷ counts) begun (c ∷ view) h =
      write_view_of_end counts (begun ++ take count (c ∷ view)) (drop count (c ∷ view)) h
      ∙ append_assoc begun (take count (c ∷ view)) (drop count (c ∷ view))
      ∙ ap (λ l. begun ++ l) (take-append-drop count (c ∷ view))

  drop-le : (count : ℕ) (text : Text) → length (drop count text) ≤ length text
  drop-le zero text = omega arith
  drop-le (suc count) [] = omega arith
  drop-le (suc count) (c ∷ text) = omega (arith, drop-le count text)

  drop_shorter : (count : ℕ) (text : Text) → 0 < count → length (drop count text) ≤ length text - 1
  drop_shorter zero text h = absurd (omega arith)
  drop_shorter (suc count) [] h = omega arith
  drop_shorter (suc count) (c ∷ text) h = omega (arith, drop-le count text)

  -- The loop ends without an exception where each call takes a byte at least, and the calls that
  -- succeed are as many as the bytes.
  pub write_view-ends :
      (counts : List ℕ) (begun view : Text)
      → All (λ count. 0 < count) counts
      → length view ≤ length counts
      → (write_view faults counts begun view).1 ≡ none
  unfolding write_view
  write_view-ends counts begun [] pos enough = refl
  write_view-ends [] begun (c ∷ view) pos enough = absurd (omega arith)
  write_view-ends (count ∷ counts) begun (c ∷ view) (here, pos) enough =
      write_view-ends counts (begun ++ take count (c ∷ view)) (drop count (c ∷ view)) pos
        (omega (arith, drop_shorter count (c ∷ view) here))
