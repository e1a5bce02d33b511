-- ===== src/ReadStr/Whole.antt =====
-- read_str_safe ends, and reads all that there is or all that fits.
use comment_subs.Prelude.{
  ℕ, zero, suc, ◌+◌, ◌-◌, ◌≤◌, ◌<◌, ◌≡◌, refl, ap, sym, ◌∙◌, false, Option, some, [], ◌∷◌, ◌++◌,
  ◌==◌, length, length-append, append_assoc, append-nil, Bytes, arith, negsuc, sub_size, size_mod,
  Bool-cases, inl, inr, ◌⊎◌,
}
use comment_subs.ReadStr.Defs.{
  Reply, got, retry, failed, Outcome, string, failure, after_read, read_loop, read_str_safe, IsRead,
}

full-or-end :
    {D : Type 0} (pending : D → Bytes) (d : D) (todo left : ℕ) (s t : Bytes)
    → left + length s ≡ todo
    → (length t ≡ left) ⊎ (pending d ≡ [])
    → (length (s ++ t) ≡ todo) ⊎ (pending d ≡ [])
full-or-end pending d todo left s t f (inl full) = inl (omega (arith, length-append s t))
full-or-end pending d todo left s t f (inr end) = inr end

module _ {D : Type 0} where
  module _ (read : D → ℕ → D × Reply) (v : IsRead read) where
    -- The result of a run from `d`, after `buf` was read and with room for `todo` more bytes: the
    -- bytes `t` were read further, and the room is full, or the bytes are at their end, or a call of
    -- read failed. That call asked for the bytes for which there was room left.
    pub data Whole (d : D) (todo : ℕ) (buf : Bytes) (d' : D) : Outcome → Type 0 where
      whole :
          (t : Bytes) {all : Bytes}
          → all ≡ buf ++ t
          → v.pending d ≡ t ++ v.pending d'
          → length t ≤ todo
          → ((length t ≡ todo) ⊎ (v.pending d' ≡ []))
          → Whole d todo buf d' (string all)
      gave_up :
          (t : Bytes) (at : D) (left errno : ℕ)
          → v.pending d ≡ t ++ v.pending at
          → left + length t ≡ todo
          → read at left ≡ (d', failed errno)
          → Whole d todo buf d' (failure (negsuc (errno - 1)))

    -- A part `s` was read before.
    Whole-after :
        (d d' d'' : D) (todo left : ℕ) (buf s : Bytes) (out : Outcome)
        → v.pending d ≡ s ++ v.pending d'
        → left + length s ≡ todo
        → Whole d' left (buf ++ s) d'' out
        → Whole d todo buf d'' out
    Whole-after d d' d'' todo left buf s out e f (gave_up t at more errno rest size ran) =
        gave_up (s ++ t) at more errno
          (e ∙ ap (λ l. s ++ l) rest ∙ sym (append_assoc s t (v.pending at)))
          (omega (arith, length-append s t, f, size)) ran
    Whole-after d d' d'' todo left buf s out e f (whole t all rest few end) =
        whole (s ++ t) (all ∙ append_assoc buf s t)
          (e ∙ ap (λ l. s ++ l) rest ∙ sym (append_assoc s t (v.pending d'')))
          (omega (arith, length-append s t, f, few)) (full-or-end v.pending d'' todo left s t f end)

    -- A round, where the further rounds are known to be right.
    turn-Whole :
        (next : (d : D) (todo : ℕ) → Bytes → Option (D × Outcome)) (d d' : D) (todo : ℕ)
        (buf : Bytes) (reply : Reply)
        → read d todo ≡ (d', reply)
        → 0 < todo
        → ((todo' : ℕ) (buf' : Bytes)
            → 0 < todo'
            → v.patience d' + todo' < v.patience d + todo
            → (d'' : D) × (out : Outcome) × (next d' todo' buf' ≡ some (d'', out))
              × Whole d' todo' buf' d'' out)
        → (d'' : D) × (out : Outcome) × (after_read (next d') d' todo buf reply ≡ some (d'', out))
          × Whole d todo buf d'' out
    unfolding after_read
    turn-Whole next d d' todo buf (got []) run some_room further =
        let (a, b) = v.got_none d d' todo run some_room in
        (d', string buf, refl, whole [] (sym (append-nil buf)) (a ∙ sym b) (omega arith) (inr b))
    turn-Whole next d d' todo buf (got (c ∷ s)) run some_room further =
        let (split, few, patient) = v.got_some d d' todo c s run in
        elim (Bool-cases (todo - length (c ∷ s) == 0)) [
          | inl full ↦ (
            d',
            string (buf ++ c ∷ s),
            rw full,
            whole (c ∷ s) refl split few (inl (ground (arith, full, few))),
          )
          | inr more ↦
              let (d'', out, ran, w) =
                further (todo - length (c ∷ s)) (buf ++ c ∷ s) (ground (arith, more))
                  (omega (arith, patient, few)) in
              (
                d'',
                out,
                rw more ran,
                Whole-after d d' d'' todo (todo - length (c ∷ s)) buf (c ∷ s) out split
                    (omega (arith, few)) w,
              )
        ]
    turn-Whole next d d' todo buf retry run some_room further =
        let (same, less) = v.retried d d' todo run in
        let open_ : (todo == 0) ≡ false = ground (arith, some_room) in
        let (d'', out, ran, w) = further todo buf some_room (omega arith) in
        (
          d'',
          out,
          rw open_ ran,
          Whole-after d d' d'' todo todo buf [] out (sym same) (omega arith)
              (rw (append-nil buf) w),
        )
    turn-Whole next d d' todo buf (failed errno) run some_room further =
        (d', failure (negsuc (errno - 1)), refl, gave_up [] d todo errno refl (omega arith) run)

    read_loop-Whole :
        (fuel : ℕ) (d : D) (todo : ℕ) (buf : Bytes)
        → 0 < todo
        → v.patience d + todo < fuel
        → (d' : D) × (out : Outcome) × (read_loop read fuel d todo buf ≡ some (d', out))
          × Whole d todo buf d' out
    unfolding read_loop
    read_loop-Whole zero d todo buf some_room h = absurd (omega arith)
    read_loop-Whole (suc fuel) d todo buf some_room h =
        turn-Whole (λ d1 left buf'. read_loop read fuel d1 left buf') d (read d todo).0 todo buf
          (read d todo).1 refl some_room
          (λ left buf' room less.
            read_loop-Whole fuel (read d todo).0 left buf' room (omega (arith, h)))

-- Where read keeps its promises (IsRead), and for a buffer of two bytes or more, read_str_safe
-- returns after at most one round for each byte of the buffer and each interruption. Either the
-- buffer has, in their order, all bytes that were to come, or the first of them up to one byte less
-- than its size, whatever the parts are in which read delivers them; or a call of read failed with
-- an error number, which is returned as a negative number. The bytes that were read before that
-- call are then the first of those that were to come.
pub read_str_safe-Whole :
    {D : Type 0} (read : D → ℕ → D × Reply) (v : IsRead read) (fuel : ℕ) (d : D) (buflen : ℕ)
    → 2 ≤ buflen
    → buflen < size_mod
    → v.patience d + buflen ≤ fuel
    → (d' : D) × (out : Outcome) × (read_str_safe read fuel d buflen ≡ some (d', out))
      × Whole read v d (buflen - 1) [] d' out
unfolding read_str_safe
read_str_safe-Whole read v fuel d buflen wide small enough =
    let size : sub_size buflen 1 ≡ buflen - 1 = omega arith in
    rw size (read_loop-Whole read v fuel d (buflen - 1) [] (omega arith) (omega arith))
