-- ===== src/Health/Schedule/Waiting.antt =====
-- When nothing runs and the dispatch loop has stopped, nothing waits.
use opsforge.Prelude.{
  ℕ, zero, suc, ◌≤◌, ◌<◌, ◌≡◌, refl, ap, Bool, true, false, List, [], ◌∷◌, arith, Text, ◌==◌,
  contains, contains-All, length, all, All, All-map, All-map₂, Bool-cases, inl, inr,
}
use opsforge.Prelude.Dict
use opsforge.Prelude.Dict.{Dict, put_of_absent}
use opsforge.Prelude.Counting.{count, count_of_contains, contains_of_count}
use opsforge.Health.Types.{HealthCheck, CheckResult, names}
use opsforge.Health.Names.{All-of_names}
use opsforge.Health.Schedule.{
  Reply, Board, hold, unmet, is_completed, passed_in, move_when_ready, decide,
}
use opsforge.Health.Schedule.Passes.{Quiet}
use opsforge.Health.Schedule.Invariant.{Inv, IsJudged}

all_fails {ℓ} :
    {A : Type ℓ} (Q : A → Type 0) (p : A → Bool) (xs : List A)
    → all p xs ≡ false
    → All Q xs
    → (x : A) × (p x ≡ false) × Q x
all_fails Q p [] h q = cc
all_fails Q p (x ∷ xs) h q = elim (Bool-cases (p x)) [
  | inl good ↦ all_fails Q p xs (rw good at h) q.1
  | inr bad ↦ (x, bad, q.0)
]

count_of_uncompleted :
    (d : Dict CheckResult) (n : Text) → is_completed d n ≡ false → count n (Dict.keys d) ≡ 0
unfolding Dict.lookup Dict.keys count
count_of_uncompleted [] n h = refl
count_of_uncompleted ((k, v) ∷ d) n h = elim (Bool-cases (k == n)) [
  | inl same ↦ absurd (false_true (rw (same, is_completed) at h))
  | inr other ↦ rw other (count_of_uncompleted d n (rw (other, is_completed) at h))
]
  where
    false_true : true ≡ false → ⊥
    false_true e = cc

none_of_unbounded :
    {F : Type 0} (rank : Text → ℕ) (xs : List (HealthCheck F))
    → ((k : ℕ) → All (λ c. ¬ (rank c.name < k)) xs)
    → xs ≡ []
none_of_unbounded rank [] h = refl
none_of_unbounded rank (c ∷ xs) h = absurd ((h (suc (rank c.name))).0 (omega arith))

module _ {F : Type 0} (display_path : Text → Text) (executor : HealthCheck F → Reply)
    (max_workers : ℕ) where
  -- A check that nothing runs beside is held only for a dependency that is not completed.
  held_for_dependency :
      (b : Board F) (c : HealthCheck F)
      → 0 < max_workers
      → b.running ≡ []
      → decide display_path executor max_workers b c ≡ hold
      → all (is_completed b.completed) c.depends_on ≡ false
  unfolding decide move_when_ready unmet
  held_for_dependency b c h idle e =
      elim (Bool-cases (all (is_completed b.completed) c.depends_on)) [
        | inr gap ↦ gap
        | inl ready ↦
            let none_running : length b.running ≡ 0 = ap length idle in
            absurd (
              moves (unmet (passed_in b.completed) c.depends_on) (length b.running) none_running
                (rw (ready, decide) at e))
      ]
    where
      moves :
          (l : List Text) (k : ℕ)
          → k ≡ 0
          → move_when_ready display_path executor max_workers l k ≡ hold
          → ⊥
      moves [] k z f = ground arith
      moves (n ∷ l) k z f = cc

  module _ (verdict : Text → CheckResult) (rank : Text → ℕ) (known : List Text)
      (distinct : (n : Text) → count n known ≤ 1) where
    abbrev Invariant : Board F → Type 0
    Invariant b = Inv display_path executor verdict rank known b []

    abbrev Judged : HealthCheck F → Type 0
    Judged = IsJudged display_path executor verdict rank known

    -- A dependency that is not completed is waiting, when nothing runs.
    uncompleted_waits :
        (b : Board F) (d : Text)
        → Invariant b
        → b.running ≡ []
        → contains known d ≡ true
        → is_completed b.completed d ≡ false
        → contains (names b.waiting) d ≡ true
    unfolding count
    uncompleted_waits b d h idle listed open_still =
        let none_running : count d (names b.running) ≡ 0 = ap (λ l. count d (names l)) idle in
        contains_of_count d (names b.waiting) (
          omega (
            arith,
            h.counted d,
            count_of_contains d known listed,
            count_of_uncompleted b.completed d open_still,
          ))

    module _ (b : Board F) (inv : Invariant b) (idle : b.running ≡ []) (workers : 0 < max_workers)
        (quiet : Quiet display_path executor max_workers b) where
      -- If all that wait have a rank of at least k, they have a rank above k.
      descent : (k : ℕ) → All (λ c. ¬ (rank c.name < k)) b.waiting
      descent zero = All-map b.waiting (λ c e. λ lt. omega arith) quiet
      descent (suc k) =
          let ih = All-of_names (λ n. ¬ (rank n < k)) b.waiting (descent k) in
          All-map₂ b.waiting
            (λ c held judged. λ lt.
              let (d, open_still, facts) =
                all_fails (λ n. (contains known n ≡ true) × (rank n < rank c.name))
                  (is_completed b.completed) c.depends_on
                  (held_for_dependency b c workers idle held) judged.ranked in
              let waits = uncompleted_waits b d inv idle facts.0 open_still in
              let below : rank d < rank c.name = facts.1 in
              contains-All (λ n. ¬ (rank n < k)) (names b.waiting) d waits ih (omega arith))
            quiet inv.waiting_judged

      pub nothing_waits : b.waiting ≡ []
      nothing_waits = none_of_unbounded rank b.waiting descent
