-- ===== src/Health/Schedule/Outcome.antt =====
-- `evaluate_config` returns the verdicts, whatever the order in which the threads finish.
use opsforge.Prelude.{
  ℕ, zero, suc, ◌+◌, ◌≤◌, ◌<◌, ◌≡◌, refl, ◌∙◌, subst, ap, List, [], ◌∷◌, map, arith, Text, eq_refl,
  length, length-append, All,
}
use opsforge.Prelude.Dict
use opsforge.Prelude.Dict.{Dict, put_of_absent}
use opsforge.Prelude.Counting.{Distinct, count_of_Distinct, count, count-append, absent_of_count}
use opsforge.Health.Types.{HealthCheck, CheckResult, names}
use opsforge.Health.Schedule.{
  Reply, Board, Move, hold, skip, start, decide, carry_out, dispatch, dispatch_all, take_out, store,
  receive, finish, next, loop, Evaluation, evaluated,
}
use opsforge.Health.Schedule.Passes.{dispatch_rule, Quiet, dispatch-Quiet}
use opsforge.Health.Schedule.Invariant.{Inv, IsJudged, IsDue, dispatch-Inv, All-append, keys-append}
use opsforge.Health.Schedule.Ordered.{sorted-Agrees}
use opsforge.Health.Schedule.Waiting.{nothing_waits}

module _ {F : Type 0} where
  take_out-count :
      (i : ℕ) (c : HealthCheck F) (rest : List (HealthCheck F)) (n : Text)
      → count n (names (c ∷ rest)) ≡ count n (names ((take_out i c rest).0 ∷ (take_out i c rest).1))
  unfolding take_out count
  take_out-count i c [] n = refl
  take_out-count zero c (d ∷ rest) n = refl
  take_out-count (suc i) c (d ∷ rest) n = ground (arith, take_out-count i d rest n)

  take_out-All :
      (P : HealthCheck F → Type 0) (i : ℕ) (c : HealthCheck F) (rest : List (HealthCheck F))
      → All P (c ∷ rest)
      → P (take_out i c rest).0 × All P (take_out i c rest).1
  unfolding take_out
  take_out-All P i c [] h = (h.0, tt)
  take_out-All P zero c (d ∷ rest) h = (h.0, h.1)
  take_out-All P (suc i) c (d ∷ rest) h =
      let (out, others) = take_out-All P i d rest h.1 in (out, (h.0, others))

  length-take_out :
      (i : ℕ) (c : HealthCheck F) (rest : List (HealthCheck F))
      → length (take_out i c rest).1 ≡ length rest
  unfolding take_out
  length-take_out i c [] = refl
  length-take_out zero c (d ∷ rest) = refl
  length-take_out (suc i) c (d ∷ rest) = ap suc (length-take_out i d rest)

  module _ (display_path : Text → Text) (executor : HealthCheck F → Reply) (max_workers : ℕ) where
    carry_out-size :
        (m : Move) (c : HealthCheck F) (b : Board F)
        → length (carry_out display_path executor max_workers m c b).running
            + length (carry_out display_path executor max_workers m c b).waiting
          ≤ length b.running + length b.waiting + 1
    carry_out-size hold c b = omega (arith, length-append b.waiting (c ∷ []))
    carry_out-size (skip names) c b = omega arith
    carry_out-size start c b = omega (arith, length-append b.running (c ∷ []))

    -- Dispatching moves checks on, and adds none.
    dispatch-size :
        (fuel : ℕ) (b : Board F) (bound : ℕ)
        → length b.running + length b.waiting ≤ bound
        → let d = dispatch display_path executor max_workers fuel b in
          length d.running + length d.waiting ≤ bound
    dispatch-size fuel b bound h =
        let kept =
          dispatch_rule display_path executor max_workers
            (λ d rest. length d.running + length d.waiting + length rest ≤ bound)
            (λ d c rest k.
              omega (arith, carry_out-size (decide display_path executor max_workers d c) c d))
            (λ d k. omega arith) fuel b (omega arith) in
        omega arith

    module _ (verdict : Text → CheckResult) (rank : Text → ℕ) (known : List Text)
        (distinct : (n : Text) → count n known ≤ 1) where
      abbrev Invariant : Board F → Type 0
      Invariant b = Inv display_path executor verdict rank known b []

      abbrev Judged : HealthCheck F → Type 0
      Judged = IsJudged display_path executor verdict rank known

      -- A result that arrives is the verdict, and the check that it belongs to becomes completed.
      receive-Inv :
          (b : Board F) (i : ℕ) (c : HealthCheck F) (rest : List (HealthCheck F))
          → b.running ≡ c ∷ rest
          → Invariant b
          → let out = (take_out i c rest).0 in
            Invariant (
              store display_path executor max_workers out
                (verdict out.name)
                (record b { running = (take_out i c rest).1 }))
      unfolding count Dict.keys
      receive-Inv b i c rest e h =
          let out = (take_out i c rest).0 in
          let others = (take_out i c rest).1 in
          let counts = λ (n : Text). ap (λ l. count n (names l)) e ∙ take_out-count i c rest n in
          let fresh = absent_of_count out.name (Dict.keys b.completed) (
            ground
              (arith, h.counted out.name, distinct out.name, counts out.name, eq_refl out.name)) in
          rw (put_of_absent out.name (verdict out.name) b.completed fresh) (record {
            counted = λ n. rw keys-append (
                ground (
                  arith,
                  h.counted n,
                  counts n,
                  count-append n (Dict.keys b.completed) (out.name ∷ []),
                ));
            agrees =
                All-append _ b.completed ((out.name, verdict out.name) ∷ []) h.agrees (refl, tt);
            due =
                (take_out-All (IsDue display_path executor verdict rank known) i c rest
                  (subst (All (IsDue display_path executor verdict rank known)) e h.due)).1;
            waiting_judged = h.waiting_judged;
            rest_judged = tt;
          })

    module _ (verdict : Text → CheckResult) (rank : Text → ℕ) (checks : List (HealthCheck F))
        (distinct : Distinct (names checks)) (workers : 0 < max_workers)
        (named : All (λ n. (verdict n).name ≡ n) (names checks)) where
      abbrev pub Good : Board F → Type 0
      Good b = Inv display_path executor verdict rank (names checks) b []

      abbrev pub run : ℕ → (ℕ → ℕ) → Board F → Evaluation
      run = loop display_path executor max_workers checks

      -- The end of the run: nothing runs, so nothing waits, and all is completed.
      finish_lem :
          (b : Board F)
          → Good b
          → Quiet display_path executor max_workers b
          → b.running ≡ []
          → finish display_path executor max_workers checks b b.waiting
            ≡ evaluated (map verdict (names checks))
      unfolding count
      finish_lem b h quiet idle =
          let empty =
            nothing_waits display_path executor max_workers verdict rank (names checks)
              (count_of_Distinct (names checks) distinct) b h idle workers quiet in
          let done = λ (n : Text).
            let none_running : count n (names b.running) ≡ 0 = ap (λ l. count n (names l)) idle in
            let none_waiting : count n (names b.waiting) ≡ 0 = ap (λ l. count n (names l)) empty in
            let all_done : count n (Dict.keys b.completed) ≡ count n (names checks) =
              omega (arith, h.counted n) in
            all_done in
          rw (empty, finish)
            (ap evaluated (sorted-Agrees verdict checks b.completed distinct named h.agrees done))

      -- Behind the dispatch loop either the run is over, or the next result arrives.
      next_lem :
          (fuel pick : ℕ) (continue : Board F → Evaluation) (d : Board F) (l : List (HealthCheck F))
          → d.running ≡ l
          → Good d
          → Quiet display_path executor max_workers d
          → length d.running + length d.waiting < suc fuel
          → ((b : Board F)
              → Good b
              → length b.running + length b.waiting < fuel
              → continue b ≡ evaluated (map verdict (names checks)))
          → next display_path executor max_workers checks pick continue d l
            ≡ evaluated (map verdict (names checks))
      next_lem fuel pick continue d [] e h quiet room ih = finish_lem d h quiet e
      next_lem fuel pick continue d (c ∷ rest) e h quiet room ih =
          let (due, others) =
            take_out-All (IsDue display_path executor verdict rank (names checks)) pick c rest
              (subst (All (IsDue display_path executor verdict rank (names checks))) e h.due) in
          rw (due.answers, receive)
            (rw due.valid (
              ih _
                (receive-Inv verdict rank (names checks) (count_of_Distinct (names checks) distinct)
                  d pick c rest e h)
                (omega (arith, length-take_out pick c rest, ap length e))))

      pub loop_lem :
          (fuel : ℕ) (picks : ℕ → ℕ) (b : Board F)
          → Good b
          → length b.running + length b.waiting < fuel
          → run fuel picks b ≡ evaluated (map verdict (names checks))
      unfolding loop
      loop_lem zero picks b h room = absurd (omega arith)
      loop_lem (suc fuel) picks b h room =
          let d = dispatch_all display_path executor max_workers b in
          let good =
            dispatch-Inv display_path executor verdict rank (names checks)
              (count_of_Distinct (names checks) distinct) max_workers (suc (length b.waiting)) b
              h in
          next_lem fuel (picks 0) _ d d.running refl good
            (dispatch-Quiet display_path executor max_workers (suc (length b.waiting)) b
              (omega arith))
            (omega (arith, dispatch-size (suc (length b.waiting)) b fuel (omega arith)))
            (loop_lem fuel (λ k. picks (suc k)))
