-- ===== src/Drift/Main/Status.antt =====
-- What the exit status 0 of `configdiff --directory` vouches for.
use opsforge.Prelude.{
  ℕ, ◌≡◌, refl, ap, sym, ◌∙◌, Bool, true, false, ◌&&◌, not, List, [], ◌∷◌, ◌++◌, map, arith, Text,
  eq_refl, contains,
}
use opsforge.Prelude.Dict.{lookup}
use opsforge.Prelude.Ordered.{sorted_names, contains-sorted_names}
use opsforge.Status.{exit_ok}
use opsforge.Result.{value}
use opsforge.Drift.Directory.{
  Collected, unexamined_path, unexamined_names, index, compare, is_empty, below_depth, on_other,
  cannot_examine,
}
use opsforge.Drift.Directory.Unchanged.{Agrees, no_drift-Agrees}
use opsforge.Output.Files.{
  os_error, keyboard_interrupt, base_exception, Written, written, output_error, uncaught,
}
use opsforge.Drift.Main.{compared, exit_code, emit, finish_directory}

emit_ok : (out : Written) (code : ℕ) → emit out code ≡ value exit_ok → code ≡ exit_ok
unfolding emit
emit_ok written code h = cc
emit_ok (output_error e) code h = absurd (ground arith)
emit_ok (uncaught os_error) code h = cc
emit_ok (uncaught keyboard_interrupt) code h = absurd (ground arith)
emit_ok (uncaught base_exception) code h = cc

exit_code_ok :
    (drift : Bool) (unexamined : List Text)
    → exit_code drift (not (is_empty unexamined) && not drift) ≡ exit_ok
    → (drift ≡ false) × (unexamined ≡ [])
exit_code_ok false [] h = (refl, refl)
exit_code_ok true us h = absurd (omega arith)
exit_code_ok false (u ∷ us) h = absurd (omega arith)

nil_of_absent : (names : List Text) → ((n : Text) → contains names n ≡ false) → names ≡ []
unfolding contains
nil_of_absent [] h = refl
nil_of_absent (n ∷ names) h = ground (arith, h n, eq_refl n)

nil_of_sorted : (names : List Text) → sorted_names names ≡ [] → names ≡ []
nil_of_sorted names h =
    nil_of_absent names
      λ n. sym (contains-sorted_names n names) ∙ ap (λ l. contains l n) h ∙ unfold contains in refl

nil_of_append {ℓ} : {A : Type ℓ} (xs ys : List A) → xs ++ ys ≡ [] → (xs ≡ []) × (ys ≡ [])
nil_of_append [] ys h = (refl, h)
nil_of_append (x ∷ xs) ys h = cc

nil_of_map {ℓ} : {A : Type ℓ} (f : A → Text) (xs : List A) → map f xs ≡ [] → xs ≡ []
nil_of_map f [] h = refl
nil_of_map f (x ∷ xs) h = cc

-- Nothing was left out of the comparison of the two trees.
pub record IsWhole (b c : Collected) : Type 0 where
  pub depth_lem : b.depth_limited ++ c.depth_limited ≡ []
  pub filesystem_lem : b.other_filesystems ++ c.other_filesystems ≡ []
  pub unreadable_lem : b.unreadable ++ c.unreadable ≡ []

unexamined_names-IsWhole : (b c : Collected) → unexamined_names b c ≡ [] → IsWhole b c
unfolding unexamined_names
unexamined_names-IsWhole b c h =
    let (depth, rest) = nil_of_append (map below_depth (b.depth_limited ++ c.depth_limited)) _ h in
    let (other, unread) =
      nil_of_append (map on_other (b.other_filesystems ++ c.other_filesystems)) _ rest in
    record {
      depth_lem = nil_of_map below_depth _ depth;
      filesystem_lem = nil_of_map on_other _ other;
      unreadable_lem = nil_of_map cannot_examine _ unread;
    }

examined : (u : List (Text × Text)) (n : Text) → u ≡ [] → unexamined_path u n ≡ false
unfolding unexamined_path
examined [] n h = refl
examined (x ∷ u) n h = cc

-- If `configdiff --directory` exits with 0 for two collected trees, nothing in them was left out for
-- its depth, its file system or its permissions, and at every path the trees agree: neither records
-- it, or both record the same entry.
pub exit_ok-Agrees :
    (permissions ownership : Bool) (out : Written) (b c : Collected)
    → finish_directory out (compared (value (compare permissions ownership b c))) ≡ value exit_ok
    → IsWhole b c
      × ((n : Text) → Agrees permissions ownership (lookup n (index b)) (lookup n (index c)))
unfolding finish_directory
exit_ok-Agrees permissions ownership out b c h =
    let r = compare permissions ownership b c in
    let (steady, listed) = exit_code_ok r.drift_detected r.unexamined (emit_ok out _ h) in
    let whole =
      unexamined_names-IsWhole b c
        (nil_of_sorted (unexamined_names b c) (unfold compare in listed)) in
    (
      whole,
      λ n.
          no_drift-Agrees permissions ownership b c steady n
            (examined (b.unreadable ++ c.unreadable) n whole.unreadable_lem),
    )
