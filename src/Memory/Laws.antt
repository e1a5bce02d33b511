-- ===== src/Memory/Laws.antt =====
-- What the accesses do to a block that is written as a concatenation.
use comment_subs.Prelude.{
  ℕ, suc, List, ◌+◌, ◌-◌, ◌≤◌, ◌<◌, ◌≡◌, Option, none, some, [], ◌∷◌, ◌++◌, arith, length, take,
  drop, replicate, ◌>>=◌, length-append, length-take, length-drop, length-replicate, length-map,
  map-append, refl, ap, take-append, drop-append, take-append_long, drop-append_long, set-append,
  get_elem?-append, append_assoc, le→leb, lt→ltb,
}
use comment_subs.Memory.Defs.{Block, load, store, memmove, realloc, filled}

module _ {ℓ} {A : Type ℓ} where
  pub load-append :
      (xs rest : Block A) (v : A) (n : ℕ) → n ≡ length xs → load (xs ++ some v ∷ rest) n ≡ some v
  unfolding load
  load-append xs rest v n e = rw (load, get_elem?-append xs rest (some v) n e)

  pub store-append :
      (xs rest : Block A) (slot : Option A) (v : A) (n : ℕ)
      → n ≡ length xs
      → store (xs ++ slot ∷ rest) n v ≡ some (xs ++ some v ∷ rest)
  unfolding store
  store-append xs rest slot v n e =
      let inside : n < length (xs ++ slot ∷ rest) = omega (arith, length-append xs (slot ∷ rest)) in
      rw (lt→ltb _ _ inside, set-append xs rest slot (some v) n e)

  memmove-eq :
      (b : Block A) (dst src n : ℕ)
      → dst + n ≤ length b
      → src + n ≤ length b
      → memmove b dst src n ≡ some (take dst b ++ (take n (drop src b) ++ drop (dst + n) b))
  unfolding memmove
  memmove-eq b dst src n h k = rw (le→leb _ _ h, le→leb _ _ k)

  -- The first `suc n` slots, where slot `n` follows `xs`.
  take-suc :
      (xs rest : Block A) (slot : Option A) (n : ℕ)
      → n ≡ suc (length xs)
      → take n (xs ++ slot ∷ rest) ≡ xs ++ slot ∷ []
  take-suc xs rest slot n e = take-append_long xs (slot ∷ rest) n 1 (omega arith)

  -- `memmove` by one slot towards the end, over the slots of `ys`, and a write into the gap.
  pub memmove-open :
      (xs ys rest : Block A) (slot : Option A) (v : A) (n m : ℕ)
      → n ≡ length xs
      → m ≡ length ys
      → (memmove (xs ++ (ys ++ slot ∷ rest)) (n + 1) n m >>= λ b. store b n v)
        ≡ some (xs ++ some v ∷ (ys ++ rest))
  memmove-open xs [] rest slot v n m e f =
      let b = xs ++ slot ∷ rest in
      let size : length b ≡ length xs + suc (length rest) = length-append xs (slot ∷ rest) in
      let all : take (n + 1) b ++ (take m (drop n b) ++ drop (n + 1 + m) b) ≡ b = rw (
        take-suc xs rest slot (n + 1) (omega arith),
        drop-append xs (slot ∷ rest) n e,
        drop-append_long xs (slot ∷ rest) (n + 1 + m) 1 (omega arith),
        f,
        append_assoc,
      ) in
      rw (memmove-eq b (n + 1) n m (omega arith) (omega arith), all)
        (store-append xs rest slot v n e)
  memmove-open xs (y ∷ ys) rest slot v n m e f =
      let tail = ys ++ slot ∷ rest in
      let b = xs ++ y ∷ tail in
      let size : length b ≡ length xs + suc (length ys + suc (length rest)) =
        omega (arith, length-append xs (y ∷ tail), length-append ys (slot ∷ rest)) in
      let moved : take (n + 1) b ++ (take m (drop n b) ++ drop (n + 1 + m) b)
          ≡ xs ++ y ∷ (y ∷ ys ++ rest) =
        rw (
          take-suc xs tail y (n + 1) (omega arith),
          drop-append xs (y ∷ tail) n e,
          drop-append_long xs (y ∷ tail) (n + 1 + m) (m + 1) (omega arith),
          take-append (y ∷ ys) (slot ∷ rest) m f,
          drop-append_long (y ∷ ys) (slot ∷ rest) (m + 1) 1 (omega arith),
          append_assoc,
        ) in
      rw (memmove-eq b (n + 1) n m (omega arith) (omega arith), moved)
        (store-append xs (y ∷ ys ++ rest) y v n e)

  -- `memmove` by one slot towards the start, over the slots of `ys` and `k` more.
  pub memmove-close :
      (xs ys rest : Block A) (slot : Option A) (n k m : ℕ) {b : Block A}
      → b ≡ xs ++ slot ∷ (ys ++ rest)
      → n ≡ length xs
      → m ≡ length ys + k
      → k ≤ length rest
      → (tail : Block A) × (memmove b n (n + 1) m ≡ some (xs ++ (ys ++ tail)))
        × (length tail ≡ suc (length rest))
  memmove-close xs ys rest slot n k m {b} is e f h =
      let size : length b ≡ length xs + suc (length ys + length rest) =
        omega
          (arith, ap length is, length-append xs (slot ∷ (ys ++ rest)), length-append ys rest) in
      let before : take n b ≡ xs = rw is (take-append xs (slot ∷ (ys ++ rest)) n e) in
      let after : drop (n + 1) b ≡ ys ++ rest =
        rw is (drop-append_long xs (slot ∷ (ys ++ rest)) (n + 1) 1 (omega arith)) in
      let moved : take n b ++ (take m (drop (n + 1) b) ++ drop (n + m) b)
          ≡ xs ++ (ys ++ (take k rest ++ drop (n + m) b)) =
        rw (before, after, take-append_long ys rest m k f, append_assoc) in
      (
        take k rest ++ drop (n + m) b,
        rw (memmove-eq b n (n + 1) m (omega arith) (omega arith), moved),
        omega (
          arith,
          length-append (take k rest) (drop (n + m) b),
          length-take k rest,
          length-drop (n + m) b,
        ),
      )

  pub realloc-append :
      (xs rest : Block A) (n : ℕ)
      → length xs ≤ n
      → (tail : Block A) × (realloc (xs ++ rest) n ≡ xs ++ tail) × (length xs + length tail ≡ n)
  unfolding realloc
  realloc-append xs rest n h =
      let k = n - length xs in
      let filler : Block A = replicate (n - length (xs ++ rest)) none in
      (
        take k rest ++ filler,
        rw (take-append_long xs rest n k (omega arith), append_assoc),
        omega (
          arith,
          length-append (take k rest) filler,
          length-take k rest,
          length-append xs rest,
          length-replicate {ℓ} {A = Option A} (n - length (xs ++ rest)) none,
        ),
      )

  pub length-filled : (xs : List A) → length (filled xs) ≡ length xs
  unfolding filled
  length-filled xs = length-map xs some

  pub filled-append : (xs ys : List A) → filled (xs ++ ys) ≡ filled xs ++ filled ys
  unfolding filled
  filled-append xs ys = map-append some xs ys

  pub filled-cons : (x : A) (xs : List A) → filled (x ∷ xs) ≡ some x ∷ filled xs
  unfolding filled
  filled-cons x xs = refl

  pub filled-nil : filled {A = A} [] ≡ []
  unfolding filled
  filled-nil = refl

  -- Slots that are split between two values.
  pub filled-insert :
      (xs ys : List A) (y : A) (rest : Block A)
      → filled (xs ++ y ∷ ys) ++ rest ≡ filled xs ++ some y ∷ (filled ys ++ rest)
  filled-insert xs ys y rest = rw (filled-append, filled-cons, append_assoc)

  pub filled_regroup :
      (xs ys : List A) (rest : Block A)
      → filled xs ++ (filled ys ++ rest) ≡ filled (xs ++ ys) ++ rest
  filled_regroup xs ys rest = rw (filled-append, append_assoc)
