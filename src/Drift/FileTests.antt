-- ===== src/Drift/FileTests.antt =====
-- File comparisons of configdiff.py, and their theorems at concrete data.
use opsforge.Prelude.{
  ℕ, ◌≡◌, ◌↔◌, refl, ap, Bool, true, false, Option, none, some, List, [], ◌∷◌, ◌++◌, arith, Text,
  lit, ◌==◌, contains, length, length-take, take, drop,
}
use opsforge.Prelude.Counting.{Distinct}
use opsforge.Prelude.Ordered.{before}
use opsforge.Result.{value, value_inj}
use opsforge.Fs.{pos, regular, Metadata, Answer, same_identity, same_int}
use opsforge.Fs.Reading.{read_exact}
use opsforge.Fs.Reading.Exact.{Obeys}
use opsforge.Health.Json.{natural, object, Fields, end, field, get, keys}
use opsforge.Drift.{same_number?, FileObservation}
use opsforge.Drift.Snapshot.{
  read_chunk_bytes, FileAnswers, read_file_pair, open_regular_file, read_exact_snapshot,
  verify_unchanged, hash_exact_snapshot,
}
use opsforge.Drift.Snapshot.Faithful.{IsFaithful, read_file_pair-IsFaithful}
use opsforge.Drift.Snapshot.Hashing.{digest_of, hash_exact_snapshot-read_exact}
use opsforge.Drift.Contents.{canonical_json}
use opsforge.Drift.Contents.Canonical.{in_canonical_form, canonical_json_iff}
use opsforge.Drift.Values.{Loaded, malformed}
use opsforge.Drift.Modes.{exact, ComparisonResult, permissions_drift, compare_files_mode}
use opsforge.Drift.Modes.Compared.{Same, compare_files_mode_exact}

-- A digest that is the text itself.
abbrev append : Text → Text → Text
append s t = s ++ t

abbrev itself : Text → Text
itself s = s

abbrev metadata_of : ℕ → Metadata
metadata_of permissions = record {
  kind = regular;
  permissions = permissions;
  uid = 0;
  gid = 0;
  device = 1;
  inode = 7;
  rdev = 0;
  size = pos 3;
  mtime = pos 5;
  ctime = pos 5;
}

abbrev read_of : Text → (offset count : ℕ) → Answer Text
read_of content offset count = value (take count (drop offset content))

abbrev file_of : Text → Text → ℕ → FileAnswers
file_of path content permissions = record {
  path = value path;
  inspected = value (metadata_of permissions);
  opened = value tt;
  observed = value (metadata_of permissions);
  read = read_of content;
  verified = value (metadata_of permissions);
}

abbrev observed_of : Text → Text → ℕ → FileObservation
observed_of path content permissions = record {
  path = path;
  size = 3;
  sha256 = content;
  mode = some permissions;
  uid = some 0;
  gid = some 0;
  symlink_target = none;
}

abbrev old : FileAnswers
old = file_of (lit "/a") (lit "x=1") 420

abbrev new : FileAnswers
new = file_of (lit "/b") (lit "x=2") 384

abbrev pair : Text × Text × FileObservation × FileObservation
pair = (
  lit "x=1",
  lit "x=2",
  observed_of (lit "/a") (lit "x=1") 420,
  observed_of (lit "/b") (lit "x=2") 384,
)

read_pair : read_file_pair [] append itself old new ≡ value pair
unfolding read_file_pair open_regular_file read_exact_snapshot read_exact verify_unchanged
    same_identity same_int
read_pair = refl

read_of-Obeys : (content : Text) → Obeys (read_of content)
read_of-Obeys content offset count chunk e =
    let same : take count (drop offset content) ≡ chunk = value_inj _ chunk e in
    omega (arith, length-take count (drop offset content), ap length same)

read_file_pair-IsFaithful_example :
    IsFaithful [] append itself old (lit "x=1") (observed_of (lit "/a") (lit "x=1") 420)
    × IsFaithful [] append itself new (lit "x=2") (observed_of (lit "/b") (lit "x=2") 384)
read_file_pair-IsFaithful_example =
    read_file_pair-IsFaithful [] append itself old new pair (read_of-Obeys (lit "x=1"))
      (read_of-Obeys (lit "x=2")) read_pair

append_parts : (a b : Text) → append (append [] a) b ≡ append [] (a ++ b)
append_parts a b = refl

hash_exact_snapshot-read_exact_example :
    hash_exact_snapshot [] append itself (read_of (lit "abc")) 3
    ≡ digest_of [] append itself (read_exact read_chunk_bytes (read_of (lit "abc")) 3)
hash_exact_snapshot-read_exact_example =
    hash_exact_snapshot-read_exact [] append itself append_parts refl (read_of (lit "abc")) 3

abbrev one_two : Fields ℕ
one_two = field (lit "a") (natural 1) (field (lit "b") (natural 2) end)

abbrev two_one : Fields ℕ
two_one = field (lit "b") (natural 2) (field (lit "a") (natural 1) end)

one_two-Distinct : Distinct (keys one_two)
unfolding keys contains ◌==◌
one_two-Distinct = (refl, (refl, tt))

two_one-Distinct : Distinct (keys two_one)
unfolding keys contains ◌==◌
two_one-Distinct = (refl, (refl, tt))

canonical_json_iff_example :
    (canonical_json (object one_two) ≡ canonical_json (object two_one))
    ↔ ((n : Text) → in_canonical_form (get n one_two) ≡ in_canonical_form (get n two_one))
canonical_json_iff_example = canonical_json_iff one_two two_one one_two-Distinct two_one-Distinct

reordered : canonical_json (object one_two) ≡ canonical_json (object two_one)
unfolding canonical_json before
reordered = refl

abbrev load : Text → Loaded ℕ
load text = malformed

abbrev no_floats : ℕ → ℕ → Bool
no_floats x y = false

abbrev as_text : Text → Option Text
as_text bytes = some bytes

abbrev one_line : Text → List Text
one_line text = text ∷ []

abbrev both_lines : (baseline current : List Text) (fromfile tofile : Text) → List Text
both_lines baseline current fromfile tofile = baseline ++ current

abbrev drifted : ComparisonResult
drifted = record {
  baseline = observed_of (lit "/a") (lit "x=1") 420;
  current = observed_of (lit "/b") (lit "x=2") 384;
  drift_detected = true;
  mode = exact;
  metadata_drift = permissions_drift ∷ [];
  diff_lines = lit "x=1" ∷ [];
  diff_truncated = true;
  content_drift = true;
  details = [];
}

compare_pair :
    compare_files_mode no_floats load as_text one_line both_lines exact true false [] true 1
      (value pair)
    ≡ value drifted
unfolding compare_files_mode ◌==◌ same_number?
compare_pair = refl

compare_files_mode_exact_example : (drifted.drift_detected ≡ false) ↔ Same true false pair
compare_files_mode_exact_example =
    compare_files_mode_exact no_floats load as_text one_line both_lines true false [] true 1 pair
      drifted compare_pair
