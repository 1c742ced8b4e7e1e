-- ===== src/Ports/Main/Status.antt =====
-- The exit statuses 0 and 1 that `main` of portlens.py returns.
use opsforge.Prelude.{
  ℕ, zero, suc, ◌+◌, ◌<◌, ◌≤◌, ◌≡◌, refl, ap, sym, subst, ◌∙◌, Bool, true, false, ◌||◌, Option,
  List, [], ◌∷◌, arith, Text, eqb, eqb_iff, false≢true, Bool-cases, inl, inr, if◌then◌else◌,
}
use opsforge.Status.{exit_ok, exit_finding, exit_usage}
use opsforge.Result.{value, error}
use opsforge.Output.Files.{Written, written, output_error, uncaught, Exit}
use opsforge.Ports.Inspect.{Inspection}
use opsforge.Ports.Main.{
  Snapshot, inspected, interrupted, crashed, Watched, watched, stopped, after_snapshot,
  after_emission, is_matched, any_matched, watch_from, finish_watch, bad_process, watch_count, main,
}

after_snapshot_lem :
    (s : Snapshot) (rest : Watched) (is : List Inspection)
    → after_snapshot s rest ≡ watched is
    → (i : Inspection) × (others : List Inspection) × (s ≡ inspected (value i))
      × (rest ≡ watched others)
      × (is ≡ i ∷ others)
unfolding after_snapshot
after_snapshot_lem (inspected (value i)) (watched others) is h = (i, others, refl, refl, cc)
after_snapshot_lem (inspected (value i)) (stopped code) is h = cc
after_snapshot_lem (inspected (error e)) rest is h = cc
after_snapshot_lem interrupted rest is h = cc
after_snapshot_lem crashed rest is h = cc

module _ (has_unsafe : Text → Bool) (snapshot : (index : ℕ) → Snapshot) (out : Written) where
  -- A snapshot that was taken, with a match or without one.
  abbrev pub Took : Bool → ℕ → Type 0
  Took matched k = (i : Inspection) × (snapshot k ≡ inspected (value i)) × (is_matched i ≡ matched)

  all_taken :
      (count index : ℕ) (is : List Inspection)
      → watch_from has_unsafe snapshot out index count ≡ watched is
      → any_matched is ≡ false
      → (k : ℕ) → index ≤ k
      → k < index + count
      → Took false k
  unfolding watch_from any_matched
  all_taken zero index is h none_of k lo hi = absurd (omega arith)
  all_taken (suc count) index is h none_of k lo hi =
      let (i, others, here, rest, e) = after_snapshot_lem (snapshot index) _ is h in
      let quiet : (is_matched i || any_matched others) ≡ false = ap any_matched (sym e) ∙ none_of in
      elim (Bool-cases (eqb index k)) [
        | inl same ↦ subst (Took false) ((eqb_iff index k).0 same) (i, here, ground arith)
        | inr other ↦
            all_taken count (suc index) others rest (ground arith) k (ground arith) (omega arith)
      ]

  some_taken :
      (count index : ℕ) (is : List Inspection)
      → watch_from has_unsafe snapshot out index count ≡ watched is
      → any_matched is ≡ true
      → (k : ℕ) × (k < index + count) × Took true k
  unfolding watch_from any_matched
  some_taken zero index is h some_of =
      let e : [] ≡ is = cc in absurd (false≢true (ap any_matched e ∙ some_of))
  some_taken (suc count) index is h some_of =
      let (i, others, here, rest, e) = after_snapshot_lem (snapshot index) _ is h in
      let loud : (is_matched i || any_matched others) ≡ true = ap any_matched (sym e) ∙ some_of in
      elim (Bool-cases (is_matched i)) [
        | inl matched ↦ (index, omega arith, (i, here, matched))
        | inr quiet ↦
            let (k, hi, took) = some_taken count (suc index) others rest (ground arith) in
            (k, omega arith, took)
      ]

  stopped_lem :
      (count index code : ℕ)
      → watch_from has_unsafe snapshot out index count ≡ stopped code
      → 2 ≤ code
  unfolding watch_from
  stopped_lem zero index code h = cc
  stopped_lem (suc count) index code h =
      after (snapshot index) (watch_from has_unsafe snapshot out (suc index) count)
        (stopped_lem count (suc index) code) h
    where
      after :
          (s : Snapshot) (rest : Watched)
          → (rest ≡ stopped code → 2 ≤ code)
          → after_snapshot s rest ≡ stopped code
          → 2 ≤ code
      after (inspected (value i)) (watched others) later e = unfold after_snapshot in (cc e)
      after (inspected (value i)) (stopped c) later e = later (unfold after_snapshot in e)
      after (inspected (error x)) rest later e = unfold after_snapshot in (ground arith)
      after interrupted rest later e = unfold after_snapshot in (ground arith)
      after crashed rest later e = unfold after_snapshot in (ground arith)

  -- An exit status that `main` returns behind a whole watch is that of its snapshots, or 3.
  after_emission_lem :
      (w : Written) (code small : ℕ)
      → after_emission has_unsafe snapshot out w code ≡ value small
      → small ≤ 1
      → code ≡ small
  after_emission_lem written code small h low = cc
  after_emission_lem (output_error e) code small h low = absurd (ground arith)
  after_emission_lem (uncaught r) code small h low = cc

  finish_watch_lem :
      (w : Watched) (code : ℕ)
      → ((c : ℕ) → w ≡ stopped c → 2 ≤ c)
      → finish_watch has_unsafe snapshot out w ≡ value code
      → code ≤ 1
      → (is : List Inspection) × (w ≡ watched is)
        × (code ≡ exit_finding → any_matched is ≡ false)
        × (code ≡ exit_ok → any_matched is ≡ true)
  unfolding finish_watch
  finish_watch_lem (watched is) code late h small =
      let e =
        after_emission_lem out (if any_matched is then exit_ok else exit_finding) code h small in
      (is, refl, λ f. ground arith, λ f. ground arith)
  finish_watch_lem (stopped c) code late h small = let high = late c refl in absurd (ground arith)

  -- If `main` of portlens returns 1, which it does not where an exception leaves it, each of its
  -- snapshots was taken and none of them shows a socket; if it returns 0, one of its snapshots was
  -- taken that shows a socket.
  pub main-Took :
      (process : Option Text) (watch : Option ℕ)
      → (main has_unsafe snapshot out process watch ≡ value exit_finding
          → (k : ℕ) → k < watch_count has_unsafe snapshot out watch
          → Took false k)
        × (main has_unsafe snapshot out process watch ≡ value exit_ok
            → (k : ℕ) × (k < watch_count has_unsafe snapshot out watch) × Took true k)
  unfolding main
  main-Took process watch = elim (Bool-cases (bad_process has_unsafe snapshot out process)) [
    | inl bad ↦ (
      λ h. absurd (usage_lem exit_finding (omega arith) (rw bad at h)),
      λ h. absurd (usage_lem exit_ok (omega arith) (rw bad at h)),
    )
    | inr good ↦
        let count = watch_count has_unsafe snapshot out watch in
        let w = watch_from has_unsafe snapshot out 0 count in
        (
          λ h k hi.
              let (is, e, quiet, loud) =
                finish_watch_lem w exit_finding (stopped_lem count 0) (rw good at h)
                  (omega arith) in
              all_taken count 0 is e (quiet refl) k (omega arith) (omega arith),
          λ h.
              let (is, e, quiet, loud) =
                finish_watch_lem w exit_ok (stopped_lem count 0) (rw good at h) (omega arith) in
              let (k, hi, took) = some_taken count 0 is e (loud refl) in (k, omega arith, took),
        )
  ]
    where
      usage_lem : (code : ℕ) → code ≤ 1 → ¬ ◌≡◌ {A = Exit} (value exit_usage) (value code)
      usage_lem code small e = ground arith
