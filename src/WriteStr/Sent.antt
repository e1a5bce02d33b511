-- ===== src/WriteStr/Sent.antt =====
-- write_str_safe ends, and writes everything unless write refuses.
use mathlib.Core.Path.{subst}
use comment_subs.Prelude.{
  ℕ, zero, suc, ◌+◌, ◌-◌, ◌≤◌, ◌<◌, ◌≡◌, refl, ap, sym, ◌∙◌, Option, some, [], ◌∷◌, ◌++◌, ◌==◌,
  length, take, take-append, drop, drop-drop, take_none, length-drop, take-append-drop,
  append_assoc, append-nil, Bytes, arith, ℤ, pos, negsuc, Bool-cases, inl, inr,
}
use comment_subs.WriteStr.Defs.{
  Answer, took, again, broke, after_write, write_str_loop, write_str_safe, IsWrite,
}

-- A prefix in two parts.
take_sum : (n k : ℕ) (xs : Bytes) → take n xs ++ take k (drop n xs) ≡ take (n + k) xs
take_sum zero k xs = ap (λ m. take m xs) (omega arith)
take_sum (suc n) k [] = take_none ℕ k ∙ sym (take_none ℕ (suc n + k))
take_sum (suc n) k (x ∷ xs) =
    ap (λ l. x ∷ l) (take_sum n k xs)
    ∙ ap (λ m. take m (x ∷ xs)) {x = suc (n + k)} {y = suc n + k} (omega arith)

whole_lem : (n : ℕ) (xs : Bytes) → n ≡ length xs → take n xs ≡ xs
whole_lem n xs e = ap (take n) (sym (append-nil xs)) ∙ take-append xs [] n e

nothing_lem : (w xs : Bytes) → length xs ≡ 0 → w ≡ w ++ xs
nothing_lem w [] e = sym (append-nil w)
nothing_lem w (x ∷ xs) e = absurd (omega arith)

module _ {D : Type 0} (write : D → Bytes → D × Answer) (v : IsWrite write) where
  -- What a run from `d` leaves: everything is written, or a call of write took nothing of what was
  -- left, or failed; what was written before that call is the start of the bytes.
  pub data Sent (d : D) (rest : Bytes) (done : ℕ) (d' : D) : ℤ → Type 0 where
    complete :
        {n : ℕ}
        → n ≡ done + length rest
        → v.written d' ≡ v.written d ++ rest
        → Sent d rest done d' (pos n)
    stopped :
        (k : ℕ) (at : D) {n : ℕ}
        → n ≡ done + k
        → v.written d' ≡ v.written d ++ take k rest
        → write at (drop k rest) ≡ (d', took 0)
        → Sent d rest done d' (pos n)
    gave_up :
        (k : ℕ) (at : D) (errno : ℕ)
        → v.written d' ≡ v.written d ++ take k rest
        → write at (drop k rest) ≡ (d', broke errno)
        → Sent d rest done d' (negsuc (errno - 1))

  longer :
      (d d' d'' : D) (n k : ℕ) (rest : Bytes)
      → v.written d' ≡ v.written d ++ take n rest
      → v.written d'' ≡ v.written d' ++ take k (drop n rest)
      → v.written d'' ≡ v.written d ++ take (n + k) rest
  longer d d' d'' n k rest e part =
      part
      ∙ ap (λ l. l ++ take k (drop n rest)) e
      ∙ append_assoc (v.written d) (take n rest) (take k (drop n rest))
      ∙ ap (λ l. v.written d ++ l) (take_sum n k rest)

  -- A part was written before.
  Sent-after :
      (d d' d'' : D) (n : ℕ) (rest : Bytes) (done : ℕ) (out : ℤ)
      → n ≤ length rest
      → v.written d' ≡ v.written d ++ take n rest
      → Sent d' (drop n rest) (done + n) d'' out
      → Sent d rest done d'' out
  Sent-after d d' d'' n rest done out h e (complete is all) =
      complete (omega (arith, length-drop n rest)) (
        all
        ∙ ap (λ l. l ++ drop n rest) e
        ∙ append_assoc (v.written d) (take n rest) (drop n rest)
        ∙ ap (λ l. v.written d ++ l) (take-append-drop n rest))
  Sent-after d d' d'' n rest done out h e (stopped k at is part ran) =
      stopped (n + k) at (omega arith) (longer d d' d'' n k rest e part)
        (ap (write at) (sym (drop-drop n k rest)) ∙ ran)
  Sent-after d d' d'' n rest done out h e (gave_up k at errno part ran) =
      gave_up (n + k) at errno (longer d d' d'' n k rest e part)
        (ap (write at) (sym (drop-drop n k rest)) ∙ ran)

  turn-Sent :
      (next : (d : D) → Bytes → (done : ℕ) → Option (D × ℤ)) (d d' : D) (rest : Bytes) (done : ℕ)
      (answer : Answer)
      → write d rest ≡ (d', answer)
      → ((rest' : Bytes) (done' : ℕ)
          → v.patience d' + length rest' < v.patience d + length rest
          → (d'' : D) × (out : ℤ) × (next d' rest' done' ≡ some (d'', out))
            × Sent d' rest' done' d'' out)
      → (d'' : D) × (out : ℤ) × (after_write (next d') d' rest done answer ≡ some (d'', out))
        × Sent d rest done d'' out
  unfolding after_write
  turn-Sent next d d' rest done (took zero) run further =
      let known = v.took_some d d' rest 0 run in
      (d', pos done, refl, stopped 0 d (omega arith) known.1 run)
  turn-Sent next d d' rest done (took (suc n)) run further =
      let (few, part, patient) = v.took_some d d' rest (suc n) run in
      elim (Bool-cases (length (drop (suc n) rest) == 0)) [
        | inl full ↦
            let all : suc n ≡ length rest = ground (arith, full, few, length-drop (suc n) rest) in
            (
              d',
              pos (done + suc n),
              rw full,
              complete (omega arith)
                  (part ∙ ap (λ l. v.written d ++ l) (whole_lem (suc n) rest all)),
            )
        | inr more ↦
            let (d'', out, ran, sent) =
              further (drop (suc n) rest) (done + suc n)
                (omega (arith, patient, few, length-drop (suc n) rest)) in
            (d'', out, rw more ran, Sent-after d d' d'' (suc n) rest done out few part sent)
      ]
  turn-Sent next d d' rest done again run further =
      let (same, less) = v.retried d d' rest run in
      elim (Bool-cases (length rest == 0)) [
        | inl empty ↦ (
          d',
          pos done,
          rw empty,
          complete (ground (arith, empty))
              (same ∙ nothing_lem (v.written d) rest (ground (arith, empty))),
        )
        | inr more ↦
            let (d'', out, ran, sent) = further rest done (omega arith) in
            (
              d'',
              out,
              rw more ran,
              Sent-after d d' d'' 0 rest done out (omega arith)
                  (same ∙ sym (append-nil (v.written d)))
                  (subst (λ k. Sent d' rest k d'' out) {x = done} {y = done + 0} (omega arith)
                    sent),
            )
      ]
  turn-Sent next d d' rest done (broke errno) run further =
      let same = v.refused d d' rest errno run in
      (d', negsuc (errno - 1), refl, gave_up 0 d errno (same ∙ sym (append-nil (v.written d))) run)

  write_str_loop-Sent :
      (fuel : ℕ) (d : D) (rest : Bytes) (done : ℕ)
      → v.patience d + length rest < fuel
      → (d' : D) × (out : ℤ) × (write_str_loop write fuel d rest done ≡ some (d', out))
        × Sent d rest done d' out
  unfolding write_str_loop
  write_str_loop-Sent zero d rest done h = absurd (omega arith)
  write_str_loop-Sent (suc fuel) d rest done h =
      turn-Sent (λ d1 left count. write_str_loop write fuel d1 left count) d (write d rest).0 rest
        done (write d rest).1 refl
        (λ rest' done' less.
          write_str_loop-Sent fuel (write d rest).0 rest' done' (omega (arith, h, less)))

-- Where write keeps its promises (IsWrite), for any bytes: write_str_safe returns after at most one
-- round for each byte and each interruption, and one more. Then either all bytes were written, in
-- their order, and their number is the result, or some call of write took none of the bytes that
-- were left, or failed. In these cases the bytes before were written and no others; the result is
-- their number, or the negative error number.
pub write_str_safe-Sent :
    {D : Type 0} (write : D → Bytes → D × Answer) (v : IsWrite write) (fuel : ℕ) (d : D)
    (buf : Bytes)
    → v.patience d + length buf < fuel
    → (d' : D) × (out : ℤ) × (write_str_safe write fuel d buf ≡ some (d', out))
      × Sent write v d buf 0 d' out
unfolding write_str_safe
write_str_safe-Sent write v fuel d buf enough = write_str_loop-Sent write v fuel d buf 0 enough
