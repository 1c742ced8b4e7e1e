-- ===== src/Drift/Directory/Swapped.antt =====
-- The two trees of `compare_directories` of configdiff.py in the other order.
use opsforge.Prelude.{
  ◌≡◌, refl, ap, sym, ◌∙◌, Bool, ◌||◌, Option, none, some, List, [], ◌∷◌, ◌++◌, map, arith, Text,
  ◌==◌, eq_iff, contains, any, ℕ,
}
use opsforge.Prelude.Dict.{lookup}
use opsforge.Prelude.Ordered.{eq_of_IsOrdered, sorted_names_ext}
use opsforge.Fs.{ℤ, pos, negsuc, same_int}
use opsforge.Drift.{same_number?}
use opsforge.Drift.Directory.{
  DirectoryEntry, Collected, drift_in, same_text?, same_content, unexamined_path, index, differ,
  differ?, compare, unexamined_names, below_depth, on_other, cannot_examine,
}
use opsforge.Drift.Directory.Exact.{compare-IsExact}

same_int_comm : (a b : ℤ) → same_int a b ≡ same_int b a
unfolding same_int
same_int_comm (pos m) (pos n) = ground arith
same_int_comm (pos m) (negsuc n) = refl
same_int_comm (negsuc m) (pos n) = refl
same_int_comm (negsuc m) (negsuc n) = ground arith

eq_comm : (s t : Text) → (s == t) ≡ (t == s)
eq_comm s t = ground (arith, eq_iff s t, eq_iff t s)

same_text?_comm : (a b : Option Text) → same_text? a b ≡ same_text? b a
unfolding same_text?
same_text?_comm none none = refl
same_text?_comm none (some t) = refl
same_text?_comm (some s) none = refl
same_text?_comm (some s) (some t) = eq_comm s t

same_number?_comm : (a b : Option ℕ) → same_number? a b ≡ same_number? b a
unfolding same_number?
same_number?_comm none none = refl
same_number?_comm none (some t) = refl
same_number?_comm (some s) none = refl
same_number?_comm (some s) (some t) = ground arith

any_append {ℓ} :
    {A : Type ℓ} (p : A → Bool) (xs ys : List A) → any p (xs ++ ys) ≡ (any p xs || any p ys)
any_append p [] ys = refl
any_append p (x ∷ xs) ys = ground (arith, any_append p xs ys)

any_comm {ℓ} : {A : Type ℓ} (p : A → Bool) (xs ys : List A) → any p (xs ++ ys) ≡ any p (ys ++ xs)
any_comm p xs ys = ground (arith, any_append p xs ys, any_append p ys xs)

unexamined_path_comm :
    (u v : List (Text × Text)) (n : Text) → unexamined_path (u ++ v) n ≡ unexamined_path (v ++ u) n
unfolding unexamined_path
unexamined_path_comm u v n = any_comm _ u v

contains-append :
    (xs ys : List Text) (n : Text) → contains (xs ++ ys) n ≡ (contains xs n || contains ys n)
unfolding contains
contains-append [] ys n = refl
contains-append (x ∷ xs) ys n = ground (arith, contains-append xs ys n)

map-append {ℓ κ} :
    {A : Type ℓ} {B : Type κ} (f : A → B) (xs ys : List A) → map f (xs ++ ys) ≡ map f xs ++ map f ys
map-append f [] ys = refl
map-append f (x ∷ xs) ys = ap (λ l. f x ∷ l) (map-append f xs ys)

contains-map_comm {ℓ} :
    {A : Type ℓ} (f : A → Text) (xs ys : List A) (n : Text)
    → contains (map f (xs ++ ys)) n ≡ contains (map f (ys ++ xs)) n
contains-map_comm f xs ys n =
    rw (map-append f xs ys, map-append f ys xs)
      (ground
        (arith, contains-append (map f xs) (map f ys) n, contains-append (map f ys) (map f xs) n))

contains-three :
    (xs ys zs xs' ys' zs' : List Text) (n : Text)
    → contains xs n ≡ contains xs' n
    → contains ys n ≡ contains ys' n
    → contains zs n ≡ contains zs' n
    → contains (xs ++ (ys ++ zs)) n ≡ contains (xs' ++ (ys' ++ zs')) n
contains-three xs ys zs xs' ys' zs' n ex ey ez = ground (
  arith,
  contains-append xs (ys ++ zs) n,
  contains-append ys zs n,
  contains-append xs' (ys' ++ zs') n,
  contains-append ys' zs' n,
)

unexamined_names_comm :
    (b c : Collected) (n : Text)
    → contains (unexamined_names b c) n ≡ contains (unexamined_names c b) n
unfolding unexamined_names
unexamined_names_comm b c n =
    contains-three _ _ _ _ _ _ n (contains-map_comm below_depth b.depth_limited c.depth_limited n)
      (contains-map_comm on_other b.other_filesystems c.other_filesystems n)
      (contains-map_comm cannot_examine b.unreadable c.unreadable n)

drift_in_comm :
    (added removed changed : List Text)
    → drift_in removed added changed ≡ drift_in added removed changed
unfolding drift_in
drift_in_comm added removed changed = ground arith

module _ (permissions ownership : Bool) where
  differ_comm :
      (a b : DirectoryEntry) → differ permissions ownership a b ≡ differ permissions ownership b a
  unfolding differ same_content
  differ_comm a b = ground (
    arith,
    eq_comm a.kind b.kind,
    same_int_comm a.size b.size,
    same_text?_comm a.sha256 b.sha256,
    same_text?_comm a.symlink_target b.symlink_target,
    same_number?_comm a.device b.device,
  )

  differ?_comm :
      (a b : Option DirectoryEntry)
      → differ? permissions ownership a b ≡ differ? permissions ownership b a
  unfolding differ?
  differ?_comm none none = refl
  differ?_comm none (some b) = refl
  differ?_comm (some a) none = refl
  differ?_comm (some a) (some b) = differ_comm a b

  -- Comparing in the other order reports the same drift the other way round: what was added is
  -- removed, what was removed is added, and what changed, whether there is drift at all and what
  -- was not examined are the same.
  pub compare_swap :
      (b c : Collected)
      → ((compare permissions ownership c b).added ≡ (compare permissions ownership b c).removed)
        × ((compare permissions ownership c b).removed ≡ (compare permissions ownership b c).added)
        × ((compare permissions ownership c b).changed
            ≡ (compare permissions ownership b c).changed)
        × ((compare permissions ownership c b).drift_detected
            ≡ (compare permissions ownership b c).drift_detected)
        × ((compare permissions ownership c b).unexamined
            ≡ (compare permissions ownership b c).unexamined)
  compare_swap b c =
      let one = compare-IsExact permissions ownership b c in
      let two = compare-IsExact permissions ownership c b in
      let added = eq_of_IsOrdered _ _ two.added-IsOrdered one.removed-IsOrdered (λ n.
        two.added_lem n
        ∙ (rw (unexamined_path_comm c.unreadable b.unreadable n))
        ∙ sym (one.removed_lem n)) in
      let removed = eq_of_IsOrdered _ _ two.removed-IsOrdered one.added-IsOrdered (λ n.
        two.removed_lem n
        ∙ (rw (unexamined_path_comm c.unreadable b.unreadable n))
        ∙ sym (one.added_lem n)) in
      let changed = eq_of_IsOrdered _ _ two.changed-IsOrdered one.changed-IsOrdered (λ n.
        two.changed_lem n
        ∙ differ?_comm (lookup n (index c)) (lookup n (index b))
        ∙ sym (one.changed_lem n)) in
      (
        added,
        removed,
        changed,
        unfold compare in
            (cc (
              added,
              removed,
              changed,
              drift_in_comm (compare permissions ownership b c).added
                  (compare permissions ownership b c).removed
                  (compare permissions ownership b c).changed,
            )),
        unfold compare in sorted_names_ext _ _ (unexamined_names_comm c b),
      )
