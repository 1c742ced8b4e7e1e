-- ===== src/Net/Host/Names.antt =====
-- What a host name is, apart from the code of common/net.py: the labels, the name, and the texts that
-- are refused whatever they name.
use opsforge.Prelude.{
  ℕ, ◌≤◌, ◌≡◌, ◌≢◌, ◌⊎◌, Bool, false, Option, none, some, List, [], ◌∷◌, ◌++◌, Text, lit, All, join,
  length,
}
use opsforge.Escape.{has_unsafe_characters}
use opsforge.Net.Host.{Kind, ipv4, ipv6, hostname}

abbrev pub IsDigit : ℕ → Type 0
IsDigit c = (48 ≤ c) × (c ≤ 57)

abbrev pub IsAlnum : ℕ → Type 0
IsAlnum c = IsDigit c ⊎ (((65 ≤ c) × (c ≤ 90)) ⊎ ((97 ≤ c) × (c ≤ 122)))

abbrev pub IsHexDigit : ℕ → Type 0
IsHexDigit c = IsDigit c ⊎ (((65 ≤ c) × (c ≤ 70)) ⊎ ((97 ≤ c) × (c ≤ 102)))

-- From 1 to 63 letters, digits and hyphens, with no hyphen at either end.
pub record IsLabel (l : Text) : Type 0 where
  pub some_character : 1 ≤ length l
  pub at_most : length l ≤ 63
  pub characters : All (λ c. IsAlnum c ⊎ (c ≡ 45)) l
  pub no_first : (rest : Text) → l ≢ 45 ∷ rest
  pub no_last : (before : Text) → l ≢ before ++ 45 ∷ []

-- What `inet_aton` reads as a number: digits, or `0x` or `0X` before hexadecimal digits.
abbrev pub IsNumber : Text → Type 0
IsNumber l =
    ((1 ≤ length l) × All IsDigit l)
    ⊎ ((digits : Text) × ((l ≡ 48 ∷ 120 ∷ digits) ⊎ (l ≡ 48 ∷ 88 ∷ digits)) × All IsHexDigit digits)

-- Labels between dots, with or without a dot behind them, of at most 253 characters together; the
-- last label is no number.
pub record IsHostname (name : Text) : Type 0 where
  pub first : Text
  pub more : List Text
  pub form :
      (name ≡ join (lit ".") (first ∷ more)) ⊎ (name ≡ join (lit ".") (first ∷ more) ++ lit ".")
  pub short : length name ≤ 253
  pub labels : All IsLabel (first ∷ more)
  pub last : (before : List Text) (l : Text) → first ∷ more ≡ before ++ l ∷ [] → ¬ IsNumber l

module _ (category : ℕ → Text) (is_space : ℕ → Bool) where
  -- No brackets, no zone, no space and no unsafe character.
  pub record IsClean (text : Text) : Type 0 where
    pub some_character : 1 ≤ length text
    pub no_bracket_first : (rest : Text) → text ≢ 91 ∷ rest
    pub no_bracket_last : (before : Text) → text ≢ before ++ 93 ∷ []
    pub no_zone : All (λ c. c ≢ 37) text
    pub no_space : All (λ c. is_space c ≡ false) text
    pub safe : has_unsafe_characters category text ≡ false

  -- What a parsed host is, by its kind.
  abbrev pub IsParsed : (parse_ipv4 parse_ipv6 : Text → Option Text) → Text → Text → Kind → Type 0
  IsParsed parse_ipv4 parse_ipv6 text host ipv4 = IsClean text × (parse_ipv4 text ≡ some host)
  IsParsed parse_ipv4 parse_ipv6 text host ipv6 =
      IsClean text × (parse_ipv4 text ≡ none) × (parse_ipv6 text ≡ some host)
  IsParsed parse_ipv4 parse_ipv6 text host hostname =
      IsClean text
      × (parse_ipv4 text ≡ none)
      × (parse_ipv6 text ≡ none)
      × (host ≡ text)
      × IsHostname text
