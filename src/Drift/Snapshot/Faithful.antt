-- ===== src/Drift/Snapshot/Faithful.antt =====
-- What `read_file_pair` of configdiff.py gives are files that were left alone while they were read.
use opsforge.Prelude.{ℕ, ◌≤◌, ◌≡◌, ap, sym, ◌∙◌, subst, Bool, true, none, some, Text, length, arith}
use opsforge.Result.{value, error, value->>=, value_inj}
use opsforge.Fs.{ℤ, pos, negsuc, Metadata, OsError, Answer, is_regular, same_inode, same_identity}
use opsforge.Fs.Reading.{Reading, complete, unreadable, changed, unverified, unfinished, read_exact}
use opsforge.Fs.Reading.Exact.{Measures, Obeys, read_exact-Measures}
use opsforge.Drift.{
  Failure, FileObservation, or_fail, raise_from, invalid_target, observation, cannot_normalize,
  cannot_open, not_regular, cannot_inspect, changed_opening, cannot_verify,
}
use opsforge.Drift.Snapshot.{
  max_file_bytes, read_chunk_bytes, FileAnswers, accept_size, require, open_regular_file, snapshot,
  read_exact_snapshot, verify_unchanged, make_observation, read_file_pair,
}

require_lem :
    (test : Bool) (failure : Failure) (u : Unit {0}) → require test failure ≡ value u → test ≡ true
require_lem test failure u h = ground arith

or_fail_lem {ℓ} :
    {A : Type ℓ} (failure : OsError → Failure) (r : Answer A) (a : A)
    → or_fail failure r ≡ value a
    → r ≡ value a
or_fail_lem failure (value b) a h = cc
or_fail_lem failure (error e) a h = cc

accept_size_lem : (z : ℤ) (n : ℕ) → accept_size z ≡ value n → (z ≡ pos n) × (n ≤ max_file_bytes)
unfolding accept_size
accept_size_lem (pos m) n h = ground arith
accept_size_lem (negsuc m) n h = cc

-- A regular file was opened, the one that was inspected, within the size limit.
pub record IsOpened (file : FileAnswers) (metadata : Metadata) (size : ℕ) : Type 0 where
  pub before : Metadata
  pub inspected : file.inspected ≡ value before
  pub was_regular : is_regular before.kind ≡ true
  pub observed : file.observed ≡ value metadata
  pub stays_regular : is_regular metadata.kind ≡ true
  pub stays_same : same_inode metadata before ≡ true
  pub size_lem : metadata.size ≡ pos size
  pub fits : size ≤ max_file_bytes

pub open_regular_file-IsOpened :
    (file : FileAnswers) (m : Metadata × ℕ)
    → open_regular_file file ≡ value m
    → IsOpened file m.0 m.1
unfolding open_regular_file
open_regular_file-IsOpened file m h =
    let (before, e1, h1) =
      value->>= (or_fail (λ e. invalid_target cannot_open (some e)) file.inspected) _ m h in
    let (u, e2, h2) =
      value->>= (require (is_regular before.kind) (invalid_target not_regular none)) _ m h1 in
    let (v, e3, h3) =
      value->>= (or_fail (λ e. invalid_target cannot_open (some e)) file.opened) _ m h2 in
    let (after, e4, h4) =
      value->>= (or_fail (raise_from (observation cannot_inspect)) file.observed) _ m h3 in
    let (w, e5, h5) =
      value->>= (require (is_regular after.kind) (invalid_target not_regular none)) _ m h4 in
    let (x, e6, h6) =
      value->>= (require (same_inode after before) (observation changed_opening none)) _ m h5 in
    let (n, e7, h7) = value->>= (accept_size after.size) _ m h6 in
    let sized = accept_size_lem after.size n e7 in
    subst (λ (p : Metadata × ℕ). IsOpened file p.0 p.1) (value_inj _ _ h7)
      (record {
        before = before;
        inspected = or_fail_lem _ file.inspected before e1;
        was_regular = require_lem _ _ u e2;
        observed = or_fail_lem _ file.observed after e4;
        stays_regular = require_lem _ _ w e5;
        stays_same = require_lem _ _ x e6;
        size_lem = sized.0;
        fits = sized.1;
      })

snapshot-Measures :
    (size : ℕ) (r : Reading) (content : Text)
    → Measures size r
    → snapshot r ≡ value content
    → length content ≡ size
unfolding snapshot
snapshot-Measures size (complete bytes) content m h =
    let same : bytes ≡ content = cc in sym (ap length same) ∙ m
snapshot-Measures size unfinished content m h = absurd m
snapshot-Measures size (unreadable e) content m h = cc
snapshot-Measures size changed content m h = cc
snapshot-Measures size (unverified e) content m h = cc

verify_unchanged_lem :
    (file : FileAnswers) (initial : Metadata) (u : Unit {0})
    → verify_unchanged file initial ≡ value u
    → (final : Metadata) × (file.verified ≡ value final) × (same_identity final initial ≡ true)
unfolding verify_unchanged
verify_unchanged_lem file initial u h =
    let (final, e, k) =
      value->>= (or_fail (raise_from (observation cannot_verify)) file.verified) _ u h in
    (final, or_fail_lem _ file.verified final e, require_lem _ _ u k)

-- What a snapshot vouches for: the file was regular, of the inode that was inspected and within the
-- size limit; the content has the size of the opened file; the metadata that identify the file are
-- unchanged behind the last read; and the observation is that of this content.
pub record IsFaithful {H : Type 0} (new : H) (update : H → Text → H) (hexdigest : H → Text)
    (file : FileAnswers) (content : Text) (o : FileObservation) : Type 0 where
  pub metadata : Metadata
  pub was_opened : IsOpened file metadata (length content)
  pub final : Metadata
  pub verified : file.verified ≡ value final
  pub unchanged : same_identity final metadata ≡ true
  pub size_lem : o.size ≡ length content
  pub digest_lem : o.sha256 ≡ hexdigest (update new content)
  pub mode_lem : o.mode ≡ some metadata.permissions
  pub uid_lem : o.uid ≡ some metadata.uid
  pub gid_lem : o.gid ≡ some metadata.gid

module _ {H : Type 0} (new : H) (update : H → Text → H) (hexdigest : H → Text) where
  make_observation-IsFaithful :
      (file : FileAnswers) (content : Text) (metadata : Metadata) (size : ℕ) (o : FileObservation)
      → IsOpened file metadata size
      → length content ≡ size
      → (u : Unit {0}) → verify_unchanged file metadata ≡ value u
      → make_observation new update hexdigest file content metadata ≡ value o
      → IsFaithful new update hexdigest file content o
  unfolding make_observation
  make_observation-IsFaithful file content metadata size o opened measured u v h =
      let (final, verified, unchanged) = verify_unchanged_lem file metadata u v in
      let (path, e, k) =
        value->>= (or_fail (raise_from (invalid_target cannot_normalize)) file.path) _ o h in
      record {
        metadata = metadata;
        was_opened = subst (IsOpened file metadata) (sym measured) opened;
        final = final;
        verified = verified;
        unchanged = unchanged;
        size_lem = cc;
        digest_lem = cc;
        mode_lem = cc;
        uid_lem = cc;
        gid_lem = cc;
      }

  read_exact_snapshot-length :
      (file : FileAnswers) (size : ℕ) (content : Text)
      → Obeys file.read
      → read_exact_snapshot file.read size ≡ value content
      → length content ≡ size
  unfolding read_exact_snapshot
  read_exact_snapshot-length file size content obeys h =
      snapshot-Measures size (read_exact read_chunk_bytes file.read size) content
        (read_exact-Measures read_chunk_bytes file.read obeys size) h

  -- If no read gives more bytes than it is asked for, both files of a pair that `read_file_pair`
  -- gives were regular, within the size limit, of the inspected inode and unchanged behind the last
  -- read, each content has the size of its opened file, and each observation has the size, the
  -- digest, the mode and the owners of its file.
  pub read_file_pair-IsFaithful :
      (baseline current : FileAnswers) (p : Text × Text × FileObservation × FileObservation)
      → Obeys baseline.read
      → Obeys current.read
      → read_file_pair new update hexdigest baseline current ≡ value p
      → IsFaithful new update hexdigest baseline p.0 p.2
        × IsFaithful new update hexdigest current p.1 p.3
  unfolding read_file_pair
  read_file_pair-IsFaithful baseline current p ob oc h =
      let (bm, e1, h1) = value->>= (open_regular_file baseline) _ p h in
      let (cm, e2, h2) = value->>= (open_regular_file current) _ p h1 in
      let (b, e3, h3) = value->>= (read_exact_snapshot baseline.read bm.1) _ p h2 in
      let (c, e4, h4) = value->>= (read_exact_snapshot current.read cm.1) _ p h3 in
      let (u, e5, h5) = value->>= (verify_unchanged baseline bm.0) _ p h4 in
      let (v, e6, h6) = value->>= (verify_unchanged current cm.0) _ p h5 in
      let (bo, e7, h7) = value->>= (make_observation new update hexdigest baseline b bm.0) _ p h6 in
      let (co, e8, h8) = value->>= (make_observation new update hexdigest current c cm.0) _ p h7 in
      subst
        (λ (q : Text × Text × FileObservation × FileObservation).
          IsFaithful new update hexdigest baseline q.0 q.2
          × IsFaithful new update hexdigest current q.1 q.3)
        (value_inj _ _ h8)
        (
          make_observation-IsFaithful baseline b bm.0 bm.1 bo
              (open_regular_file-IsOpened baseline bm e1)
              (read_exact_snapshot-length baseline bm.1 b ob e3) u e5 e7,
          make_observation-IsFaithful current c cm.0 cm.1 co
              (open_regular_file-IsOpened current cm e2)
              (read_exact_snapshot-length current cm.1 c oc e4) v e6 e8,
        )
