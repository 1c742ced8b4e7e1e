-- ===== src/Drift/Snapshot/Hashing.antt =====
-- `hash_exact_snapshot` of configdiff.py against `read_exact_snapshot`: streaming makes no difference.
use opsforge.Prelude.{
  ℕ, zero, suc, ◌-◌, ◌≡◌, refl, ap, sym, ◌∙◌, [], ◌∷◌, ◌++◌, Text, length, length-append, none,
}
use opsforge.Result.{Result, value, error}
use opsforge.Fs.{Answer}
use opsforge.Fs.Reading.{
  Reading, complete, unreadable, changed, unverified, unfinished, finish, next, read_loop,
  read_exact,
}
use opsforge.Drift.{Failure, raise_from, observation, cannot_read, changed_reading, out_of_rounds}
use opsforge.Drift.Snapshot.{
  read_chunk_bytes, finish_hash, next_hash, hash_loop, hash_exact_snapshot,
}

module _ {H : Type 0} (new : H) (update : H → Text → H) (hexdigest : H → Text) where
  -- The digest of a complete reading; an error of a read, also of the last one, cannot be read.
  unfoldable pub digest_of : Reading → Result Failure Text
  digest_of (complete bytes) = value (hexdigest (update new bytes))
  digest_of (unreadable e) = error (raise_from (observation cannot_read) e)
  digest_of changed = error (observation changed_reading none)
  digest_of (unverified e) = error (raise_from (observation cannot_read) e)
  digest_of unfinished = error (observation out_of_rounds none)

  finish_hash-finish :
      (bytes : Text) (r : Answer Text)
      → finish_hash new update hexdigest (update new bytes) r ≡ digest_of (finish bytes r)
  unfolding finish_hash finish digest_of
  finish_hash-finish bytes (value []) = refl
  finish_hash-finish bytes (value (c ∷ extra)) = refl
  finish_hash-finish bytes (error e) = refl

  next_hash-next :
      (f : Text → Result Failure Text) (g : Text → Reading) (r : Answer Text)
      → ((chunk : Text) → f chunk ≡ digest_of (g chunk))
      → next_hash new update hexdigest f r ≡ digest_of (next g r)
  unfolding next_hash next digest_of
  next_hash-next f g (value []) h = refl
  next_hash-next f g (value (c ∷ chunk)) h = h (c ∷ chunk)
  next_hash-next f g (error e) h = refl

  hash_loop-read_loop :
      ((a b : Text) → update (update new a) b ≡ update new (a ++ b))
      → (read : (offset count : ℕ) → Answer Text) (fuel remaining : ℕ) (bytes : Text)
      → hash_loop new update hexdigest read fuel (length bytes) remaining (update new bytes)
        ≡ digest_of (read_loop read_chunk_bytes read fuel remaining bytes)
  unfolding hash_loop read_loop
  hash_loop-read_loop streams read zero remaining bytes = unfold digest_of in refl
  hash_loop-read_loop streams read (suc fuel) zero bytes = finish_hash-finish bytes _
  hash_loop-read_loop streams read (suc fuel) (suc remaining) bytes = next_hash-next _ _ _ λ chunk.
      let left : ℕ = suc remaining - length chunk in
      let whole = bytes ++ chunk in
      ap (λ n. hash_loop new update hexdigest read fuel n left (update (update new bytes) chunk))
        (sym (length-append bytes chunk))
      ∙ ap (hash_loop new update hexdigest read fuel (length whole) left) (streams bytes chunk)
      ∙ hash_loop-read_loop streams read fuel left whole

  -- If hashing in parts is hashing the whole and hashing nothing changes nothing, the streamed
  -- digest of a file is the digest of what the exact reading of the same size gives, and it fails
  -- just where that reading fails.
  pub hash_exact_snapshot-read_exact :
      ((a b : Text) → update (update new a) b ≡ update new (a ++ b))
      → update new [] ≡ new
      → (read : (offset count : ℕ) → Answer Text) (size : ℕ)
      → hash_exact_snapshot new update hexdigest read size
        ≡ digest_of (read_exact read_chunk_bytes read size)
  unfolding hash_exact_snapshot read_exact
  hash_exact_snapshot-read_exact streams nothing read size =
      ap (hash_loop new update hexdigest read (suc size) 0 size) (sym nothing)
      ∙ hash_loop-read_loop streams read (suc size) size []
