-- ===== src/Drift/Directory/Exact.antt =====
-- The names that `compare_directories` of configdiff.py reports, against the two dictionaries.
use opsforge.Prelude.{
  ◌≡◌, refl, ◌∙◌, Bool, true, false, ◌&&◌, not, Option, none, some, List, [], ◌∷◌, ◌++◌, arith,
  Text, ◌==◌, eq_iff, eq_refl, contains, All, keep, Bool-cases, inl, inr,
}
use opsforge.Prelude.Dict.{Dict, lookup, keys}
use opsforge.Prelude.Ordered.{
  sorted_names, contains-sorted_names, sorted_names-IsOrdered, IsOrdered, before,
}
use opsforge.Drift.Directory.{
  DirectoryEntry, Collected, DirectoryComparison, unexamined_path, index, only_in, differ?,
  changed_in, compare,
}

pub contains-keep :
    (p : Text → Bool) (names : List Text) (n : Text)
    → contains (keep p names) n ≡ (contains names n && p n)
unfolding contains
contains-keep p [] n = refl
contains-keep p (m ∷ names) n = elim (Bool-cases (m == n)) [
  | inl same ↦
      let e : m ≡ n = (eq_iff m n).0 same in
      rw (← e) (ground (arith, contains-keep p names m, eq_refl m))
  | inr other ↦ ground (arith, contains-keep p names n)
]

All-keep :
    (P : Text → Type 0) (p : Text → Bool) (names : List Text) → All P names → All P (keep p names)
All-keep P p [] h = tt
All-keep P p (n ∷ names) h = elim (Bool-cases (p n)) [
  | inl there ↦ rw there (h.0, All-keep P p names h.1)
  | inr gone ↦ rw gone (All-keep P p names h.1)
]

keep-IsOrdered : (p : Text → Bool) (names : List Text) → IsOrdered names → IsOrdered (keep p names)
keep-IsOrdered p [] h = tt
keep-IsOrdered p (n ∷ names) h = elim (Bool-cases (p n)) [
  | inl there ↦ rw there (All-keep (λ m. before n m ≡ true) p names h.0, keep-IsOrdered p names h.1)
  | inr gone ↦ rw gone (keep-IsOrdered p names h.1)
]

abbrev pub is_there : Option DirectoryEntry → Bool
is_there none = false
is_there (some e) = true

pub contains-keys :
    (d : Dict DirectoryEntry) (n : Text) → contains (keys d) n ≡ is_there (lookup n d)
unfolding contains keys lookup
contains-keys [] n = refl
contains-keys ((k, e) ∷ d) n = ground (arith, contains-keys d n)

contains-only_in :
    (u : List (Text × Text)) (here there : Dict DirectoryEntry) (n : Text)
    → contains (only_in u here there) n
      ≡ (is_there (lookup n here) && (not (is_there (lookup n there)) && not (unexamined_path u n)))
unfolding only_in
contains-only_in u here there n =
    contains-sorted_names n _
    ∙ contains-keep _ (keys here) n
    ∙ rw (contains-keys here n, contains-keys there n)

only_in-IsOrdered :
    (u : List (Text × Text)) (here there : Dict DirectoryEntry) → IsOrdered (only_in u here there)
unfolding only_in
only_in-IsOrdered u here there = sorted_names-IsOrdered _

module _ (permissions ownership : Bool) where
  differ?_of_there :
      (a b : Option DirectoryEntry)
      → (is_there a && is_there b && differ? permissions ownership a b)
        ≡ differ? permissions ownership a b
  unfolding differ?
  differ?_of_there none b = refl
  differ?_of_there (some a) none = refl
  differ?_of_there (some a) (some b) = refl

  contains-changed_in :
      (left right : Dict DirectoryEntry) (n : Text)
      → contains (changed_in permissions ownership left right) n
        ≡ differ? permissions ownership (lookup n left) (lookup n right)
  unfolding changed_in differ?
  contains-changed_in left right n =
      let both : contains (sorted_names (keep (contains (keys right)) (keys left))) n
          ≡ (is_there (lookup n left) && is_there (lookup n right)) =
        contains-sorted_names n (keep (contains (keys right)) (keys left))
        ∙ contains-keep (contains (keys right)) (keys left) n
        ∙ rw (contains-keys left n, contains-keys right n) in
      contains-keep _ (sorted_names (keep (contains (keys right)) (keys left))) n
      ∙ rw both (differ?_of_there (lookup n left) (lookup n right))

  changed_in-IsOrdered :
      (left right : Dict DirectoryEntry) → IsOrdered (changed_in permissions ownership left right)
  unfolding changed_in
  changed_in-IsOrdered left right = keep-IsOrdered _ _ (sorted_names-IsOrdered _)

  -- What a comparison reports: exactly the paths that only the current tree records and that were
  -- examined, those that only the baseline records and that were examined, and those that both
  -- record with differing entries, each list in order and without repetition.
  pub record IsExact (b c : Collected) (r : DirectoryComparison) : Type 0 where
    pub added_lem :
        (n : Text)
        → contains r.added n ≡ (
            is_there (lookup n (index c))
            && (not (is_there (lookup n (index b)))
                && not (unexamined_path (b.unreadable ++ c.unreadable) n)))
    pub removed_lem :
        (n : Text)
        → contains r.removed n ≡ (
            is_there (lookup n (index b))
            && (not (is_there (lookup n (index c)))
                && not (unexamined_path (b.unreadable ++ c.unreadable) n)))
    pub changed_lem :
        (n : Text)
        → contains r.changed n
          ≡ differ? permissions ownership (lookup n (index b)) (lookup n (index c))
    pub added-IsOrdered : IsOrdered r.added
    pub removed-IsOrdered : IsOrdered r.removed
    pub changed-IsOrdered : IsOrdered r.changed

  -- `compare_directories` reports exactly the drift between the two dictionaries: which paths were
  -- added, removed and changed, each list in order and without repetition. A path at or below an
  -- unreadable one is neither added nor removed.
  pub compare-IsExact : (b c : Collected) → IsExact b c (compare permissions ownership b c)
  unfolding compare
  compare-IsExact b c = record {
    added_lem = contains-only_in (b.unreadable ++ c.unreadable) (index c) (index b);
    removed_lem = contains-only_in (b.unreadable ++ c.unreadable) (index b) (index c);
    changed_lem = contains-changed_in (index b) (index c);
    added-IsOrdered = only_in-IsOrdered _ (index c) (index b);
    removed-IsOrdered = only_in-IsOrdered _ (index b) (index c);
    changed-IsOrdered = changed_in-IsOrdered (index b) (index c);
  }
