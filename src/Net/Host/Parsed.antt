-- ===== src/Net/Host/Parsed.antt =====
-- What `parse_host` of common/net.py accepts, in the words of Net.Host.Names.
use opsforge.Prelude.{
  ℕ, ◌≡◌, ◌≢◌, ◌↔◌, refl, ap, sym, ◌∙◌, Bool, false, Option, none, some, [], ◌∷◌, ◌++◌, Text, All,
  All-map, eqb, any, arith, Option-cases, inl, inr,
}
use opsforge.Result.{value}
use opsforge.Net.Host.{
  last_or, HostError, Kind, ipv4, ipv6, hostname, name_objection, name_or, literal_or_name, host_or,
  objection, parse_host,
}
use opsforge.Net.Host.Names.{IsClean, IsParsed}
use opsforge.Net.Host.Accepted.{name_objection_of_IsHostname}
use opsforge.Net.Host.Labels.{append-last_or, last_or-append}
use opsforge.Net.Host.Sound.{name_objection-IsHostname}

All-of_any : (p : ℕ → Bool) (text : Text) → any p text ≡ false → All (λ c. p c ≡ false) text
All-of_any p [] h = tt
All-of_any p (c ∷ text) h = (ground arith, All-of_any p text (ground arith))

not_percent : (c : ℕ) → eqb 37 c ≡ false → c ≢ 37
not_percent c h e = ground arith

no_percent : (c : ℕ) → c ≢ 37 → eqb 37 c ≡ false
no_percent c h = ground arith

not_code : (c code : ℕ) → c ≢ code → eqb c code ≡ false
not_code c code h = ground arith

All-any : (p : ℕ → Bool) (text : Text) → All (λ c. p c ≡ false) text → any p text ≡ false
All-any p [] h = refl
All-any p (c ∷ text) (here, h) = rw (here, All-any p text h) refl

module _ (category : ℕ → Text) (is_space : ℕ → Bool) where
  objection-IsClean :
      (text : Text) → objection category is_space text ≡ none → IsClean category is_space text
  unfolding objection
  objection-IsClean [] h = absurd (ground arith)
  objection-IsClean (c ∷ text) h = record {
    some_character = omega arith;
    no_bracket_first = λ rest e. let bracket : c ≡ 91 = cc in ground arith;
    no_bracket_last = λ before e. let l = last_or-append c 93 text before e in ground arith;
    no_zone = All-map (c ∷ text) not_percent (All-of_any (eqb 37) (c ∷ text) (ground arith));
    no_space = All-of_any is_space (c ∷ text) (ground arith);
    safe = ground arith;
  }

  objection_of_IsClean :
      (text : Text) → IsClean category is_space text → objection category is_space text ≡ none
  unfolding objection
  objection_of_IsClean [] h = absurd (let s = h.some_character in omega arith)
  objection_of_IsClean (c ∷ text) h =
      let (before, e) = append-last_or c text in
      let first : eqb c 91 ≡ false =
        not_code c 91 (λ f. h.no_bracket_first text (ap (λ d. d ∷ text) f)) in
      let last : eqb (last_or c text) 93 ≡ false =
        not_code (last_or c text) 93
          (λ f. h.no_bracket_last before (e ∙ ap (λ d. before ++ d ∷ []) f)) in
      let zone = All-any (eqb 37) (c ∷ text) (All-map (c ∷ text) no_percent h.no_zone) in
      let space = All-any is_space (c ∷ text) h.no_space in
      rw (first, last, zone, space, h.safe) refl

  module _ (parse_ipv4 parse_ipv6 : Text → Option Text) where
    name_or-IsParsed :
        (text host : Text) (kind : Kind) (o : Option HostError)
        → IsClean category is_space text
        → parse_ipv4 text ≡ none
        → parse_ipv6 text ≡ none
        → name_objection text ≡ o
        → name_or text o ≡ value (host, kind)
        → IsParsed category is_space parse_ipv4 parse_ipv6 text host kind
    unfolding name_or
    name_or-IsParsed text host ipv4 none clean four six e h = cc
    name_or-IsParsed text host ipv6 none clean four six e h = cc
    name_or-IsParsed text host hostname none clean four six e h =
        (clean, four, six, ground arith, name_objection-IsHostname text e)
    name_or-IsParsed text host kind (some x) clean four six e h = cc

    literal_or_name-IsParsed :
        (text host : Text) (kind : Kind) (four six : Option Text)
        → IsClean category is_space text
        → parse_ipv4 text ≡ four
        → parse_ipv6 text ≡ six
        → literal_or_name category is_space parse_ipv4 parse_ipv6 text four six ≡ value (host, kind)
        → IsParsed category is_space parse_ipv4 parse_ipv6 text host kind
    unfolding literal_or_name
    literal_or_name-IsParsed text host ipv4 (some a) six clean e f h = (clean, ground arith)
    literal_or_name-IsParsed text host ipv6 (some a) six clean e f h = cc
    literal_or_name-IsParsed text host hostname (some a) six clean e f h = cc
    literal_or_name-IsParsed text host ipv4 none (some a) clean e f h = cc
    literal_or_name-IsParsed text host ipv6 none (some a) clean e f h = (clean, e, ground arith)
    literal_or_name-IsParsed text host hostname none (some a) clean e f h = cc
    literal_or_name-IsParsed text host kind none none clean e f h =
        name_or-IsParsed text host kind (name_objection text) clean e f refl h

    is_parsed :
        (text host : Text) (kind : Kind)
        → parse_host category is_space parse_ipv4 parse_ipv6 text ≡ value (host, kind)
        → IsParsed category is_space parse_ipv4 parse_ipv6 text host kind
    unfolding parse_host host_or
    is_parsed text host kind h = elim (Option-cases (objection category is_space text)) [
      | inl fine ↦
          literal_or_name-IsParsed text host kind (parse_ipv4 text) (parse_ipv6 text)
            (objection-IsClean text fine) refl refl (rw (fine, host_or) at h)
      | inr (e, bad) ↦ cc (rw (bad, host_or) at h)
    ]

    parsed :
        (text host : Text) (kind : Kind)
        → IsParsed category is_space parse_ipv4 parse_ipv6 text host kind
        → parse_host category is_space parse_ipv4 parse_ipv6 text ≡ value (host, kind)
    unfolding parse_host host_or literal_or_name name_or
    parsed text host ipv4 (clean, four) = rw (objection_of_IsClean text clean, four) refl
    parsed text host ipv6 (clean, four, six) = rw (objection_of_IsClean text clean, four, six) refl
    parsed text host hostname (clean, four, six, same, name) =
        rw (objection_of_IsClean text clean, four, six, name_objection_of_IsHostname text name)
          (ap (λ t. value (t, hostname)) (sym same))

    -- A text is accepted with a host exactly when it has no brackets at its ends, no zone, no space
    -- and no unsafe character, and the host is what `ipaddress` makes of it as an IPv4 or else an
    -- IPv6 literal, or it is no literal and the host is the text itself: at most 253 characters,
    -- labels of 1 to 63 letters, digits and inner hyphens between dots, with or without a last dot,
    -- where the last label is neither decimal nor `0x` and hexadecimal, so that it cannot be taken
    -- for an IPv4 address.
    pub parse_host_iff :
        (text host : Text) (kind : Kind)
        → (parse_host category is_space parse_ipv4 parse_ipv6 text ≡ value (host, kind))
          ↔ IsParsed category is_space parse_ipv4 parse_ipv6 text host kind
    parse_host_iff text host kind = (is_parsed text host kind, parsed text host kind)
