-- ===== src/Net/Host/Sound.antt =====
-- The host names that common/net.py accepts are those of Net.Host.Names.
use mathlib.Core.List.{append-nil, append_assoc}
use opsforge.Prelude.{
  ◌≡◌, ◌⊎◌, refl, ap, sym, ◌∙◌, subst, false, not, none, List, [], ◌∷◌, ◌++◌, Text, lit, All, join,
  eqb, any, arith, Bool-cases, inl, inr,
}
use opsforge.Net.Host.{
  is_host_label, last_label, split_from, split, without_root, name_objection, check_labels,
}
use opsforge.Net.Host.Names.{IsLabel, IsNumber, IsHostname}
use opsforge.Net.Host.Labels.{is_host_label-IsLabel, not-IsNumber}

split_from_cons :
    (label text : Text)
    → (first : Text) × (more : List Text) × (split_from label text ≡ first ∷ more)
unfolding split_from
split_from_cons label [] = (label, [], refl)
split_from_cons label (c ∷ text) = elim (Bool-cases (eqb c 46)) [
  | inl dot ↦ (label, split_from [] text, rw dot)
  | inr other ↦
      let (first, more, e) = split_from_cons (label ++ c ∷ []) text in (first, more, rw other e)
]

join-cons :
    (label : Text) (labels : List Text) (first : Text) (more : List Text)
    → labels ≡ first ∷ more
    → join (lit ".") (label ∷ labels) ≡ label ++ (lit "." ++ join (lit ".") labels)
unfolding join
join-cons label [] first more e = absurd (ground arith)
join-cons label (l ∷ labels) first more e = refl

-- The labels between dots are joined to the text again.
join-split_from : (label text : Text) → join (lit ".") (split_from label text) ≡ label ++ text
unfolding split_from
join-split_from label [] = unfold join in (sym (append-nil label))
join-split_from label (c ∷ text) = elim (Bool-cases (eqb c 46)) [
  | inl dot ↦
      let (first, more, e) = split_from_cons [] text in
      let here : c ≡ 46 = ground arith in
      rw dot (
        join-cons label (split_from [] text) first more e
        ∙ ap (λ t. label ++ 46 ∷ t) (join-split_from [] text)
        ∙ ap (λ d. label ++ d ∷ text) (sym here))
  | inr other ↦ rw other (join-split_from (label ++ c ∷ []) text ∙ append_assoc label (c ∷ []) text)
]

without_root_lem :
    (name : Text) → (name ≡ without_root name) ⊎ (name ≡ without_root name ++ lit ".")
unfolding without_root
without_root_lem [] = inl refl
without_root_lem (c ∷ []) = elim (Bool-cases (eqb c 46)) [
  | inl dot ↦ inr (rw dot (ap (λ d. d ∷ []) (let e : c ≡ 46 = ground arith in e)))
  | inr other ↦ inl (rw other refl)
]
without_root_lem (c ∷ d ∷ name) = elim (without_root_lem (d ∷ name)) [
  | inl same ↦ inl (ap (λ t. c ∷ t) same)
  | inr rooted ↦ inr (ap (λ t. c ∷ t) rooted)
]

last_label_lem : (first l : Text) (before : List Text) → last_label first (before ++ l ∷ []) ≡ l
last_label_lem first l [] = refl
last_label_lem first l (b ∷ before) = last_label_lem b l before

host_labels :
    (labels : List Text) → any (λ l. not (is_host_label l)) labels ≡ false → All IsLabel labels
host_labels [] h = tt
host_labels (l ∷ labels) h =
    (is_host_label-IsLabel l (ground arith), host_labels labels (ground arith))

check_labels_of_none :
    (labels : List Text)
    → check_labels labels ≡ none
    → All IsLabel labels
      × ((before : List Text) (l : Text) → labels ≡ before ++ l ∷ [] → ¬ IsNumber l)
unfolding check_labels
check_labels_of_none labels h = (
  host_labels labels (ground arith),
  λ before l e.
      let last = ap (last_label []) e ∙ last_label_lem [] l before in not-IsNumber l (ground arith),
)

pub name_objection-IsHostname : (name : Text) → name_objection name ≡ none → IsHostname name
unfolding name_objection split
name_objection-IsHostname name h =
    let body = without_root name in
    let (first, more, e) = split_from_cons [] body in
    let (labels, last) = check_labels_of_none (split_from [] body) (ground arith) in
    let joined : join (lit ".") (first ∷ more) ≡ body =
      ap (join (lit ".")) (sym e) ∙ join-split_from [] body in
    record {
      first = first;
      more = more;
      form = elim (without_root_lem name) [
        | inl same ↦ inl (same ∙ sym joined)
        | inr rooted ↦ inr (rooted ∙ ap (λ t. t ++ lit ".") (sym joined))
      ];
      short = ground arith;
      labels = subst (All IsLabel) e labels;
      last = λ before l f. last before l (e ∙ f);
    }
