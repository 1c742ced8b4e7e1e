-- ===== src/Procfs/Tests.antt =====
-- Runs of common/procfs.py, and the theorem at concrete data.
use opsforge.Prelude.{◌≡◌, refl, some, [], ◌∷◌, ◌++◌, arith, lit, decimal, starts_with, split_on}
use opsforge.Prelude.Bytes.{words_from, is_space_byte}
use opsforge.Procfs.{split_stat, unified_cgroup_path}
use opsforge.Procfs.Stat.{split_stat_lem}

split_stat_lem_example :
    split_stat ((decimal 42 ++ lit " ") ++ 40 ∷ (lit "a) (b" ++ 41 ∷ lit " S 1"))
    ≡ some (42, lit "a) (b", words_from [] (lit " S 1"))
split_stat_lem_example = split_stat_lem 42 (lit "a) (b") (lit " S 1") (omega arith) refl

fields : words_from [] (lit " S 1") ≡ lit "S" ∷ lit "1" ∷ []
unfolding words_from is_space_byte
fields = refl

cgroup : unified_cgroup_path (10 ∷ lit "0::/a:b") ≡ some (lit "/a:b")
unfolding unified_cgroup_path split_on starts_with
cgroup = refl
