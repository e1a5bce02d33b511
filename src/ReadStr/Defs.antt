-- ===== src/ReadStr/Defs.antt =====
-- read_str_safe, with the system call read as an argument.
use comment_subs.Prelude.{
  ℕ, zero, suc, ◌-◌, ◌≤◌, ◌<◌, ◌≡◌, Option, none, some, [], ◌∷◌, ◌++◌, if◌then◌else◌, ◌==◌, length,
  Bytes, ℤ, negsuc, sub_size,
}

-- What a call of read gives: bytes, an interruption (EAGAIN, EWOULDBLOCK or EINTR), or another
-- error number, which is positive.
pub data Reply : Type 0 where
  got : Bytes → Reply
  retry : Reply
  failed : ℕ → Reply

-- The result of read_str_safe: the contents of the buffer before the NUL, or a negative result.
pub data Outcome : Type 0 where
  string : Bytes → Outcome
  failure : ℤ → Outcome

module _ {D : Type 0} where
  -- What follows a call of read in the loop; `next` is a further round.
  unfoldable pub after_read :
      (next : (todo : ℕ) → Bytes → Option (D × Outcome))
      → D
      → (todo : ℕ) → (buf : Bytes) → Reply
      → Option (D × Outcome)
  after_read next d todo buf (got []) = some (d, string buf)
  after_read next d todo buf (got (c ∷ s)) =
      let left = todo - length (c ∷ s) in
      if left == 0 then some (d, string (buf ++ c ∷ s)) else next left (buf ++ c ∷ s)
  after_read next d todo buf retry = if todo == 0 then some (d, string buf) else next todo buf
  after_read next d todo buf (failed errno) = some (d, failure (negsuc (errno - 1)))

  -- `none`: the fuel ran out.
  unfoldable pub read_loop :
      (read : D → ℕ → D × Reply) → ℕ → D → (todo : ℕ) → Bytes → Option (D × Outcome)
  read_loop read zero d todo buf = none
  read_loop read (suc fuel) d todo buf =
      let (d', reply) = read d todo in
      after_read (λ left buf'. read_loop read fuel d' left buf') d' todo buf reply

  unfoldable pub read_str_safe :
      (read : D → ℕ → D × Reply) → ℕ → D → (buflen : ℕ) → Option (D × Outcome)
  read_str_safe read fuel d buflen = read_loop read fuel d (sub_size buflen 1) []

  -- What read promises: `pending` are the bytes that are still to come, and `patience` bounds the
  -- interruptions that are to come.
  pub record IsRead (read : D → ℕ → D × Reply) : Type 0 where
    pub pending : D → Bytes
    pub patience : D → ℕ
    pub got_some :
        (d d' : D) (n c : ℕ) (s : Bytes)
        → read d n ≡ (d', got (c ∷ s))
        → (pending d ≡ (c ∷ s) ++ pending d') × (length (c ∷ s) ≤ n) × (patience d' ≤ patience d)
    pub got_none :
        (d d' : D) (n : ℕ) → read d n ≡ (d', got []) → 0 < n → (pending d ≡ []) × (pending d' ≡ [])
    pub retried :
        (d d' : D) (n : ℕ)
        → read d n ≡ (d', retry)
        → (pending d' ≡ pending d) × (patience d' < patience d)
