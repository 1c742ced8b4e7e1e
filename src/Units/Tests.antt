-- ===== src/Units/Tests.antt =====
-- Runs of `normalize_service_name` of common/systemd.py, and the theorems at concrete data.
use opsforge.Prelude.{
  ℕ, ◌≡◌, refl, Bool, false, Text, lit, ◌==◌, contains, starts_with, ltb, eqb, if◌then◌else◌,
}
use opsforge.Escape.{has_unsafe_characters}
use opsforge.Units.{ends_with, normalize_service_name, unit, invalid, template, unsupported_type}
use opsforge.Units.Names.{
  IsConcrete, normalize_service_name-IsConcrete, normalize_service_name_of_IsConcrete,
}

abbrev ascii : ℕ → Text
ascii c = if ltb c 32 then lit "Cc" else lit "Lo"

abbrev blank : ℕ → Bool
blank c = eqb c 32

nginx : normalize_service_name ascii blank (lit "nginx") ≡ unit (lit "nginx.service")
unfolding normalize_service_name has_unsafe_characters contains starts_with ends_with ◌==◌
nginx = refl

timer :
    normalize_service_name ascii blank (lit "a.timer") ≡ invalid (unsupported_type (lit ".timer"))
unfolding normalize_service_name has_unsafe_characters contains starts_with ends_with ◌==◌
timer = refl

getty : normalize_service_name ascii blank (lit "getty@") ≡ invalid template
unfolding normalize_service_name has_unsafe_characters contains starts_with ends_with ◌==◌
getty = refl

visible_suffix : has_unsafe_characters ascii (lit ".service") ≡ false
unfolding has_unsafe_characters contains ◌==◌
visible_suffix = refl

nginx-IsConcrete : IsConcrete ascii blank (lit "nginx.service")
nginx-IsConcrete =
    normalize_service_name-IsConcrete ascii blank (lit "nginx") (lit "nginx.service") refl
      visible_suffix nginx

normalize_service_name-IsConcrete_example : IsConcrete ascii blank (lit "nginx.service")
normalize_service_name-IsConcrete_example =
    normalize_service_name-IsConcrete ascii blank (lit "nginx") (lit "nginx.service") refl
      visible_suffix nginx

normalize_service_name_of_IsConcrete_example :
    normalize_service_name ascii blank (lit "nginx.service") ≡ unit (lit "nginx.service")
normalize_service_name_of_IsConcrete_example =
    normalize_service_name_of_IsConcrete ascii blank (lit "nginx.service") nginx-IsConcrete
