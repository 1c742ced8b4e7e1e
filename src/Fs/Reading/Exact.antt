-- ===== src/Fs/Reading/Exact.antt =====
-- The snapshot loop ends, gives the size asked for, and gives the content of a file that is left
-- alone.
use opsforge.Prelude.{
  ℕ, zero, suc, ◌+◌, ◌-◌, ◌≤◌, ◌<◌, min, ◌≡◌, refl, ap, sym, ◌∙◌, subst, [], ◌∷◌, ◌++◌, arith, Text,
  length, length-append, length-take, take, drop, take-append-drop,
}
use mathlib.Core.List.{append-nil, append_assoc}
use opsforge.Result.{value, error}
use opsforge.Fs.{Answer}
use opsforge.Fs.Reading.{Reading, complete, unfinished, finish, next, read_loop, read_exact}

-- A reading ends, and a complete one has the given number of bytes.
abbrev pub Measures : ℕ → Reading → Type 0
Measures size (complete bytes) = length bytes ≡ size
Measures size unfinished = ⊥
Measures size _ = Unit

-- `os.read` gives no more bytes than it is asked for.
abbrev pub Obeys : ((offset count : ℕ) → Answer Text) → Type 0
Obeys read =
    (offset count : ℕ) (chunk : Text) → read offset count ≡ value chunk → length chunk ≤ count

-- A file that is left alone: `os.read` gives at least one of the bytes that follow the offset, not
-- always as many as it is asked for, and none at the end.
pub record Serves (content : Text) (read : (offset count : ℕ) → Answer Text) : Type 0 where
  pub inside :
      (offset count : ℕ)
      → 0 < count
      → offset < length content
      → (k : ℕ) × (0 < k) × (k ≤ count) × (read offset count ≡ value (take k (drop offset content)))
  pub at_end : (count : ℕ) → read (length content) count ≡ value []

finish-Measures :
    (bytes : Text) (size : ℕ) (r : Answer Text)
    → length bytes ≡ size
    → Measures size (finish bytes r)
unfolding finish
finish-Measures bytes size (value []) h = h
finish-Measures bytes size (value (c ∷ extra)) h = tt
finish-Measures bytes size (error e) h = tt

next-Measures :
    (size : ℕ) (more : Text → Reading) (r : Answer Text)
    → ((c : ℕ) (chunk : Text) → r ≡ value (c ∷ chunk) → Measures size (more (c ∷ chunk)))
    → Measures size (next more r)
unfolding next
next-Measures size more (value []) h = tt
next-Measures size more (value (c ∷ chunk)) h = h c chunk refl
next-Measures size more (error e) h = tt

drop_of_length : (xs ys : Text) → drop (length xs) (xs ++ ys) ≡ ys
drop_of_length [] ys = refl
drop_of_length (x ∷ xs) ys = drop_of_length xs ys

next_of_pos :
    (more : Text → Reading) (r : Answer Text) (chunk : Text)
    → r ≡ value chunk
    → 0 < length chunk
    → next more r ≡ more chunk
unfolding next
next_of_pos more r [] e h = absurd (omega arith)
next_of_pos more r (c ∷ chunk) e h = rw e

module _ (chunk_bytes : ℕ) (read : (offset count : ℕ) → Answer Text) where
  read_loop-Measures :
      Obeys read
      → (fuel remaining : ℕ) (bytes : Text) → remaining < fuel
      → Measures (length bytes + remaining) (read_loop chunk_bytes read fuel remaining bytes)
  unfolding read_loop
  read_loop-Measures obeys zero remaining bytes h = absurd (omega arith)
  read_loop-Measures obeys (suc fuel) zero bytes h = finish-Measures bytes _ _ (omega arith)
  read_loop-Measures obeys (suc fuel) (suc remaining) bytes h =
      let more : Text → Reading =
        λ chunk. read_loop chunk_bytes read fuel (suc remaining - length chunk) (bytes ++ chunk) in
      let count : ℕ = min chunk_bytes (suc remaining) in
      next-Measures (length bytes + suc remaining) more (read (length bytes) count) λ c chunk e.
        let fits : suc (length chunk) ≤ count = obeys (length bytes) count (c ∷ chunk) e in
        let total : length (bytes ++ c ∷ chunk) + (suc remaining - suc (length chunk))
            ≡ length bytes + suc remaining =
          omega (arith, length-append bytes (c ∷ chunk)) in
        subst
          (λ n. Measures n (
            read_loop chunk_bytes read fuel (suc remaining - suc (length chunk))
              (bytes ++ c ∷ chunk)))
          total
          (read_loop-Measures obeys fuel (suc remaining - suc (length chunk)) (bytes ++ c ∷ chunk)
            (omega arith))

  -- If reads give no more than they are asked for, the snapshot loop ends within its rounds, and a
  -- complete reading has exactly the size that the file had.
  pub read_exact-Measures :
      Obeys read → (size : ℕ) → Measures size (read_exact chunk_bytes read size)
  unfolding read_exact
  read_exact-Measures obeys size =
      let total : 0 + size ≡ size = omega arith in
      subst (λ n. Measures n (read_loop chunk_bytes read (suc size) size [])) total
        (read_loop-Measures obeys (suc size) size [] (omega arith))

  read_loop-Serves :
      (content : Text)
      → Serves content read
      → 0 < chunk_bytes
      → (fuel : ℕ) (rest bytes : Text) → bytes ++ rest ≡ content
      → length rest < fuel
      → read_loop chunk_bytes read fuel (length rest) bytes ≡ complete content
  unfolding read_loop finish
  read_loop-Serves content s pos zero rest bytes e h = absurd (omega arith)
  read_loop-Serves content s pos (suc fuel) [] bytes e h =
      let all : bytes ≡ content = sym (append-nil bytes) ∙ e in rw all (rw (s.at_end 1))
  read_loop-Serves content s pos (suc fuel) (c ∷ rest) bytes e h =
      let room : length bytes < length content =
        omega (arith, length-append bytes (c ∷ rest), ap length e) in
      let (k, some, fits, answer) =
        s.inside (length bytes) (min chunk_bytes (suc (length rest))) (omega arith) room in
      let here : drop (length bytes) content ≡ c ∷ rest =
        ap (drop (length bytes)) (sym e) ∙ drop_of_length bytes (c ∷ rest) in
      let chunk : read (length bytes) (min chunk_bytes (suc (length rest)))
          ≡ value (take k (c ∷ rest)) =
        answer ∙ ap (λ l. value (take k l)) here in
      let size : length (take k (c ∷ rest)) ≡ k = omega (arith, length-take k (c ∷ rest)) in
      let left : length (drop k (c ∷ rest)) ≡ suc (length rest) - length (take k (c ∷ rest)) =
        omega (
          arith,
          ap length (take-append-drop k (c ∷ rest)),
          length-append (take k (c ∷ rest)) (drop k (c ∷ rest)),
        ) in
      let more : Text → Reading =
        λ part. read_loop chunk_bytes read fuel (suc (length rest) - length part) (bytes ++ part) in
      next_of_pos more (read (length bytes) (min chunk_bytes (suc (length rest))))
        (take k (c ∷ rest)) chunk (omega arith)
      ∙ ap (λ n. read_loop chunk_bytes read fuel n (bytes ++ take k (c ∷ rest))) (sym left)
      ∙ read_loop-Serves content s pos fuel (drop k (c ∷ rest)) (bytes ++ take k (c ∷ rest))
          (append_assoc bytes (take k (c ∷ rest)) (drop k (c ∷ rest))
            ∙ ap (λ l. bytes ++ l) (take-append-drop k (c ∷ rest))
            ∙ e)
          (omega arith)

  -- A file that is left alone while it is read is read whole, however short the reads are, if a
  -- read may ask for a byte.
  pub read_exact-Serves :
      (content : Text)
      → Serves content read
      → 0 < chunk_bytes
      → read_exact chunk_bytes read (length content) ≡ complete content
  unfolding read_exact
  read_exact-Serves content s pos =
      read_loop-Serves content s pos (suc (length content)) content [] refl (omega arith)
