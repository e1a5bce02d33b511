-- ===== src/WriteStr/Defs.antt =====
-- write_str_safe, with the system call write as an argument. The result is below 2 ^ 63, so that
-- its conversion to ssize_t changes nothing.
use comment_subs.Prelude.{
  ℕ, zero, suc, ◌+◌, ◌-◌, ◌≤◌, ◌<◌, ◌≡◌, Option, none, some, ◌++◌, if◌then◌else◌, ◌==◌, length,
  take, drop, Bytes, ℤ, pos, negsuc,
}

-- What a call of write gives: a number of bytes that it took, an interruption (EAGAIN, EWOULDBLOCK
-- or EINTR), or another error number, which is positive.
pub data Answer : Type 0 where
  took : ℕ → Answer
  again : Answer
  broke : ℕ → Answer

module _ {D : Type 0} where
  -- What follows a call of write in the loop; `next` is a further round. `rest` are the bytes from
  -- `buf + done` on, as many as `todo`.
  unfoldable pub after_write :
      (next : Bytes → (done : ℕ) → Option (D × ℤ))
      → D
      → (rest : Bytes) → (done : ℕ) → Answer
      → Option (D × ℤ)
  after_write next d rest done (took zero) = some (d, pos done)
  after_write next d rest done (took (suc n)) =
      let left = drop (suc n) rest in
      if length left == 0 then some (d, pos (done + suc n)) else next left (done + suc n)
  after_write next d rest done again =
      if length rest == 0 then some (d, pos done) else next rest done
  after_write next d rest done (broke errno) = some (d, negsuc (errno - 1))

  -- `none`: the fuel ran out.
  unfoldable pub write_str_loop :
      (write : D → Bytes → D × Answer) → ℕ → D → (rest : Bytes) → (done : ℕ) → Option (D × ℤ)
  write_str_loop write zero d rest done = none
  write_str_loop write (suc fuel) d rest done =
      let (d', answer) = write d rest in
      after_write (λ left count. write_str_loop write fuel d' left count) d' rest done answer

  unfoldable pub write_str_safe :
      (write : D → Bytes → D × Answer) → ℕ → D → (buf : Bytes) → Option (D × ℤ)
  write_str_safe write fuel d buf = write_str_loop write fuel d buf 0

  -- What write promises: `written` are the bytes that it took, and `patience` bounds the
  -- interruptions that are to come.
  pub record IsWrite (write : D → Bytes → D × Answer) : Type 0 where
    pub written : D → Bytes
    pub patience : D → ℕ
    pub took_some :
        (d d' : D) (s : Bytes) (n : ℕ)
        → write d s ≡ (d', took n)
        → (n ≤ length s) × (written d' ≡ written d ++ take n s) × (patience d' ≤ patience d)
    pub retried :
        (d d' : D) (s : Bytes)
        → write d s ≡ (d', again)
        → (written d' ≡ written d) × (patience d' < patience d)
    pub refused :
        (d d' : D) (s : Bytes) (errno : ℕ) → write d s ≡ (d', broke errno) → written d' ≡ written d
