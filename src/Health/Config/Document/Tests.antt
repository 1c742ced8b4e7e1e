-- ===== src/Health/Config/Document/Tests.antt =====
-- Runs of `parse_config_document` of healthctl.py, and the theorems at concrete data.
use opsforge.Prelude.{
  ℕ, ◌≡◌, refl, true, none, some, [], ◌∷◌, map, Text, lit, ◌==◌, contains, decimal, leb, eqb,
}
use opsforge.Prelude.Dict
use opsforge.Result.{value, error}
use opsforge.Health.Json.{Json, natural, string, array, object, Items, Fields, get, keys, elements}
use opsforge.Health.Types.{
  Severity, Status, number, generic, HealthCheck, HealthConfig, CheckResult, names,
}
use opsforge.Health.Depends.{validate_dependencies}
use opsforge.Health.Schedule.{Reply, returned, work, is_valid, evaluate, evaluated}
use opsforge.Health.Schedule.Verdict.{IsVerdict, IsHonest}
use opsforge.Health.Config.{
  System, unsupported_version, nonnegative_int, parse_check_name, is_check_name, severity_of,
  group_names, dependencies_of, dependency_names, strings_of, repeats, check_names,
  common_check_fields, make_check, expect_mapping, reject_unknown_keys, first_unknown,
  require_string, string_of,
}
use opsforge.Health.Config.Checks.{parse_process_check}
use opsforge.Health.Config.Document.{parse_config_document}
use opsforge.Health.Config.Document.Accepted.{
  IsConfig, parse_config_document-IsConfig, evaluate_of_parsed,
}

-- Floats are whole numbers here.
abbrev system : System ℕ
system = record {
  float = λ n. n;
  tenth = 1;
  at_most = leb;
  category = λ c. lit "Lo";
  is_space = λ c. eqb c 32;
  parse_ipv4 = λ s. none;
  parse_ipv6 = λ s. none;
  urlsplit = λ s. none;
  lower = λ s. s;
  encodable = λ s. true;
}

abbrev process_one : Json ℕ
process_one = object (
    Fields.field (lit "name") (string (lit "init")) (
      Fields.field (lit "type") (string (lit "process"))
        (Fields.field (lit "pid") (natural 1) Fields.end)))

abbrev document : ℕ → Json ℕ
document version = object (
    Fields.field (lit "version") (natural version)
      (Fields.field (lit "checks") (array (Items.cons process_one Items.nil)) Fields.end))

abbrev init : HealthCheck ℕ
init = record {
  name = lit "init";
  type = lit "process";
  probe = generic (lit "1") 1 ((lit "pid", number 1) ∷ []);
  severity = Severity.critical;
  group = lit "default";
  profile = lit "default";
  depends_on = [];
  retries = 0;
}

abbrev config : HealthConfig ℕ
config = record { path = lit "/c"; checks = init ∷ []; max_workers = 4 }

parsed : parse_config_document system (document 1) (lit "/c") ≡ value config
unfolding parse_config_document expect_mapping reject_unknown_keys first_unknown keys get elements
    contains ◌==◌ nonnegative_int require_string string_of parse_check_name is_check_name
    common_check_fields severity_of group_names dependencies_of dependency_names strings_of
    check_names repeats make_check parse_process_check decimal validate_dependencies Dict.lookup
parsed = refl

version_two : parse_config_document system (document 2) (lit "/c") ≡ error unsupported_version
unfolding parse_config_document expect_mapping reject_unknown_keys first_unknown keys get elements
    contains ◌==◌ nonnegative_int require_string string_of parse_check_name is_check_name
    common_check_fields severity_of group_names dependencies_of dependency_names strings_of
    check_names repeats make_check parse_process_check decimal validate_dependencies Dict.lookup
version_two = refl

parse_config_document-IsConfig_example : IsConfig config
parse_config_document-IsConfig_example =
    parse_config_document-IsConfig system (document 1) (lit "/c") config parsed

abbrev result : CheckResult
result = record {
  name = lit "init";
  type = lit "process";
  status = Status.pass;
  target = lit "1";
  evidence = [];
  severity = some Severity.ok;
  elapsed_seconds = 0;
  attempts = 1;
}

abbrev executor : HealthCheck ℕ → Reply
executor c = returned result

honest : IsHonest (λ p. p) executor (config.checks)
unfolding work is_valid ◌==◌
honest = ((result, refl, refl), tt)

evaluate_of_parsed_example :
    (verdict : Text → CheckResult) × IsVerdict (λ p. p) executor (config.checks) verdict
    × ((picks : ℕ → ℕ)
        → evaluate (λ p. p) executor 4 (config.checks) picks
          ≡ evaluated (map verdict (names (config.checks))))
evaluate_of_parsed_example =
    evaluate_of_parsed system (λ p. p) executor (document 1) (lit "/c") config parsed honest
