-- ===== src/Fs/Tests.antt =====
-- Runs of common/fs.py and of the snapshot loop, and their theorems at concrete data.
use opsforge.Prelude.{
  ℕ, zero, suc, ◌≡◌, refl, ap, [], arith, Text, lit, length, length-take, take, drop, min,
}
use opsforge.Result.{value, error, value_inj}
use opsforge.Fs.{pos, regular, Metadata, Answer, identity_changed, open_regular_file, same_inode}
use opsforge.Fs.Reading.{complete, read_exact}
use opsforge.Fs.Reading.Exact.{Obeys, Serves, read_exact-Serves}

abbrev seen : Metadata
seen = record {
  kind = regular;
  permissions = 420;
  uid = 0;
  gid = 0;
  device = 1;
  inode = 7;
  rdev = 0;
  size = pos 3;
  mtime = pos 5;
  ctime = pos 5;
}

abbrev replaced : Metadata
replaced = record seen { inode = 8 }

opened : open_regular_file (value seen) (value tt) (value seen) ≡ value seen
unfolding open_regular_file same_inode
opened = refl

swapped : open_regular_file (value seen) (value tt) (value replaced) ≡ error identity_changed
unfolding open_regular_file same_inode
swapped = refl

-- Reads give two bytes at most.
abbrev read_twos : (offset count : ℕ) → Answer Text
read_twos offset count = value (take (min 2 count) (drop offset (lit "abc")))

whole : read_exact 4 read_twos 3 ≡ complete (lit "abc")
unfolding read_exact
whole = refl

read_twos-Obeys : Obeys read_twos
read_twos-Obeys offset count chunk e =
    let same : take (min 2 count) (drop offset (lit "abc")) ≡ chunk = value_inj _ chunk e in
    omega (arith, length-take (min 2 count) (drop offset (lit "abc")), ap length same)

read_twos-Serves : Serves (lit "abc") read_twos
read_twos-Serves = record {
  inside = λ offset count h k. (min 2 count, omega arith, omega arith, refl);
  at_end = λ count. take_nil (min 2 count);
}
  where
    take_nil : (n : ℕ) → ◌≡◌ {A = Answer Text} (value (take n [])) (value [])
    take_nil zero = refl
    take_nil (suc n) = refl

read_exact-Serves_example : read_exact 4 read_twos 3 ≡ complete (lit "abc")
read_exact-Serves_example = read_exact-Serves 4 read_twos (lit "abc") read_twos-Serves (omega arith)
