-- ===== src/Net/Resolve/Distinct.antt =====
-- The candidates of common/net.py are the first distinct results.
use opsforge.Prelude.{
  ℕ, zero, suc, ◌-◌, ◌≤◌, ◌<◌, ◌≡◌, refl, ap, ◌∙◌, Bool, true, false, Option, none, List, [], ◌∷◌,
  ◌++◌, Text, length, length-append, take, ltb, eqb, any, arith, Bool-cases, inl, inr,
  if◌then◌else◌,
}
use opsforge.Result.{Result, value}
use opsforge.Net.Resolve.{
  Entry, Candidate, NetworkApiError, records, max_candidates, same_key, make_candidate, collect,
  resolve_tcp,
}

-- The candidates without those whose key came before.
abbrev pub distinct : List Candidate → List Candidate → List Candidate
distinct seen [] = []
distinct seen (c ∷ cs) =
    let fresh = distinct (seen ++ c ∷ []) cs in
    let rest = distinct seen cs in if any (same_key c) seen then rest else c ∷ fresh

append_nil : (xs : List Candidate) → xs ++ [] ≡ xs
append_nil [] = refl
append_nil (x ∷ xs) = ap (λ l. x ∷ l) (append_nil xs)

append_assoc :
    (xs : List Candidate) (y : Candidate) (zs : List Candidate)
    → (xs ++ y ∷ []) ++ zs ≡ xs ++ y ∷ zs
append_assoc [] y zs = refl
append_assoc (x ∷ xs) y zs = ap (λ l. x ∷ l) (append_assoc xs y zs)

module _ (af_inet af_inet6 sock_stream : ℕ) (ip_address : Text → Option (ℕ × Text)) (port : ℕ) where
  -- Each record makes the candidate beside it.
  abbrev pub Make : List Entry → List Candidate → Type 0
  Make [] [] = Unit
  Make (r ∷ rs) (c ∷ cs) =
      (make_candidate af_inet af_inet6 sock_stream ip_address r port ≡ value c) × Make rs cs
  Make _ _ = ⊥

  abbrev outcome : List Candidate → List Candidate → Result NetworkApiError (List Candidate × Bool)
  outcome kept ds = value (
    (kept ++ take (max_candidates - length kept) ds),
    ltb (max_candidates - length kept) (length ds),
  )

  outcome_full :
      (kept : List Candidate) (d : Candidate) (ds : List Candidate)
      → length kept ≡ max_candidates
      → value (kept, true) ≡ outcome kept (d ∷ ds)
  outcome_full kept d ds h =
      let none_left : max_candidates - length kept ≡ 0 = omega arith in
      let same : kept ++ take (max_candidates - length kept) (d ∷ ds) ≡ kept =
        rw none_left (append_nil kept) in
      let more : ltb (max_candidates - length kept) (suc (length ds)) ≡ true = ground arith in
      rw (same, more)

  outcome_more :
      (kept : List Candidate) (d : Candidate) (ds : List Candidate)
      → length kept < max_candidates
      → outcome (kept ++ d ∷ []) ds ≡ outcome kept (d ∷ ds)
  outcome_more kept d ds h =
      let one_less : max_candidates - length kept ≡ suc (max_candidates - length (kept ++ d ∷ [])) =
        omega (arith, length-append kept (d ∷ [])) in
      let shorter = max_candidates - length (kept ++ d ∷ []) in
      let same : ltb (suc shorter) (suc (length ds)) ≡ ltb shorter (length ds) = ground arith in
      rw (one_less, same, append_assoc)

  take_nil : (n : ℕ) → take {A = Candidate} n [] ≡ []
  take_nil zero = refl
  take_nil (suc n) = refl

  outcome_end : (kept : List Candidate) → value (kept, false) ≡ outcome kept []
  outcome_end kept =
      let none_more : ltb (max_candidates - length kept) 0 ≡ false = ground arith in
      rw (none_more, take_nil (max_candidates - length kept), append_nil kept)

  collect_of_Make :
      (rs : List Entry) (cs kept : List Candidate)
      → Make rs cs
      → length kept ≤ max_candidates
      → collect af_inet af_inet6 sock_stream ip_address port kept rs
        ≡ outcome kept (distinct kept cs)
  unfolding collect
  collect_of_Make [] [] kept h room = outcome_end kept
  collect_of_Make [] (c ∷ cs) kept h room = absurd h
  collect_of_Make (r ∷ rs) [] kept h room = absurd h
  collect_of_Make (r ∷ rs) (c ∷ cs) kept h room = elim (Bool-cases (any (same_key c) kept)) [
    | inl seen ↦ rw (h.0, seen) (collect_of_Make rs cs kept h.1 room)
    | inr fresh ↦ elim (Bool-cases (eqb (length kept) max_candidates)) [
      | inl full ↦
          rw (h.0, fresh, full) (outcome_full kept c (distinct (kept ++ c ∷ []) cs) (ground arith))
      | inr space ↦
          rw (h.0, fresh, space)
            (collect_of_Make rs cs (kept ++ c ∷ []) h.1
                (ground (arith, length-append kept (c ∷ [])))
              ∙ outcome_more kept c (distinct (kept ++ c ∷ []) cs) (ground arith))
    ]
  ]

  -- If every record makes a candidate, the resolution has the first distinct ones, 16 at most,
  -- and says that it is truncated exactly if there are more.
  pub resolve_tcp-distinct :
      (negative_answer : ℕ → Option Text) (r : Entry) (rs : List Entry) (cs : List Candidate)
      → Make (r ∷ rs) cs
      → resolve_tcp af_inet af_inet6 sock_stream ip_address negative_answer (records (r ∷ rs)) port
        ≡ value (record {
          candidates = take max_candidates (distinct [] cs);
          failure = none;
          truncated = ltb max_candidates (length (distinct [] cs));
        })
  unfolding resolve_tcp
  resolve_tcp-distinct negative_answer r rs cs h =
      rw (collect_of_Make (r ∷ rs) cs [] h (omega arith))
