-- ===== src/Tests/Strings.antt =====
-- read_str_safe and write_str_safe of libkmod/libkmod-util.c on a file descriptor that gives or takes
-- one byte at a time.
use comment_subs.Prelude.{
  ℕ, zero, suc, ◌≤◌, ◌<◌, ◌≡◌, refl, ap, sym, ◌∙◌, some, [], ◌∷◌, ◌++◌, length, take, append-nil,
  Bytes, arith, ℤ, pos,
}
use comment_subs.ReadStr.{
  Reply, got, retry, failed, Outcome, string, after_read, read_loop, read_str_safe, IsRead,
}
use comment_subs.ReadStr.Whole.{read_str_safe-Whole, Whole}
use comment_subs.WriteStr.{
  Answer, took, again, broke, after_write, write_str_loop, write_str_safe, IsWrite,
}
use comment_subs.WriteStr.Sent.{write_str_safe-Sent, Sent}

-- The interruptions and the bytes that are to come.
abbrev Device : Type 0
Device = ℕ × Bytes

unfoldable slow_read : Device → ℕ → Device × Reply
slow_read (suc k, s) n = ((k, s), retry)
slow_read (zero, []) n = ((0, []), got [])
slow_read (zero, b ∷ s) zero = ((0, b ∷ s), got [])
slow_read (zero, b ∷ s) (suc n) = ((0, s), got (b ∷ []))

abbrev bytes_of : Reply → Bytes
bytes_of (got s) = s
bytes_of retry = []
bytes_of (failed errno) = []

slow-some :
    (d d' : Device) (n c : ℕ) (s : Bytes)
    → slow_read d n ≡ (d', got (c ∷ s))
    → (d.1 ≡ (c ∷ s) ++ d'.1) × (length (c ∷ s) ≤ n) × (d'.0 ≤ d.0)
unfolding slow_read
slow-some (suc k, t) d' n c s e = absurd (omega (arith, ap length (ap (λ r. bytes_of r.1) e)))
slow-some (zero, []) d' n c s e = absurd (omega (arith, ap length (ap (λ r. bytes_of r.1) e)))
slow-some (zero, b ∷ t) d' zero c s e = absurd (omega (arith, ap length (ap (λ r. bytes_of r.1) e)))
slow-some (zero, b ∷ t) d' (suc n) c s e =
    let bytes : b ∷ [] ≡ c ∷ s = ap (λ r. bytes_of r.1) e in
    let left : t ≡ d'.1 = ap (λ r. r.0.1) e in
    let calm : 0 ≡ d'.0 = ap (λ r. r.0.0) e in
    (
      ap (λ l. l ++ t) bytes ∙ ap (λ l. (c ∷ s) ++ l) left,
      omega (arith, ap length bytes),
      omega (arith, calm),
    )

abbrev is_retry : Reply → ℕ
is_retry (got s) = 0
is_retry retry = 1
is_retry (failed errno) = 2

slow-none :
    (d d' : Device) (n : ℕ) → slow_read d n ≡ (d', got []) → 0 < n → (d.1 ≡ []) × (d'.1 ≡ [])
unfolding slow_read
slow-none (suc k, t) d' n e h = absurd (omega (arith, ap (λ r. is_retry r.1) e))
slow-none (zero, []) d' n e h = (refl, sym (ap (λ r. r.0.1) e))
slow-none (zero, b ∷ t) d' zero e h = absurd (omega arith)
slow-none (zero, b ∷ t) d' (suc n) e h =
    absurd (omega (arith, ap length (ap (λ r. bytes_of r.1) e)))

slow-retry : (d d' : Device) (n : ℕ) → slow_read d n ≡ (d', retry) → (d'.1 ≡ d.1) × (d'.0 < d.0)
unfolding slow_read
slow-retry (suc k, t) d' n e = (sym (ap (λ r. r.0.1) e), omega (arith, ap (λ r. r.0.0) e))
slow-retry (zero, []) d' n e = absurd (omega (arith, ap (λ r. is_retry r.1) e))
slow-retry (zero, b ∷ t) d' zero e = absurd (omega (arith, ap (λ r. is_retry r.1) e))
slow-retry (zero, b ∷ t) d' (suc n) e = absurd (omega (arith, ap (λ r. is_retry r.1) e))

abbrev slow_device : IsRead slow_read
slow_device = record {
  pending = λ d. d.1;
  patience = λ d. d.0;
  got_some = slow-some;
  got_none = slow-none;
  retried = slow-retry;
}

read_str_safe_example :
    (d : Device) × (out : Outcome) × (read_str_safe slow_read 20
        (3, b'l' ∷ b'i' ∷ b'v' ∷ b'e' ∷ [])
        16
      ≡ some (d, out))
    × Whole slow_read slow_device (3, b'l' ∷ b'i' ∷ b'v' ∷ b'e' ∷ []) 15 [] d out
read_str_safe_example =
    read_str_safe-Whole slow_read slow_device 20 (3, b'l' ∷ b'i' ∷ b'v' ∷ b'e' ∷ []) 16
      (omega arith) (omega arith) (omega arith)

-- All four bytes, after three interruptions.
read_str_safe_run :
    read_str_safe slow_read 20 (3, b'l' ∷ b'i' ∷ b'v' ∷ b'e' ∷ []) 16
    ≡ some ((0, []), string (b'l' ∷ b'i' ∷ b'v' ∷ b'e' ∷ []))
unfolding read_str_safe read_loop after_read slow_read
read_str_safe_run = refl

-- A device that takes one byte at a time; the bytes are those that it took.
unfoldable slow_write : Device → Bytes → Device × Answer
slow_write (suc k, w) s = ((k, w), again)
slow_write (zero, w) [] = ((0, w), took 0)
slow_write (zero, w) (b ∷ s) = ((0, w ++ b ∷ []), took 1)

abbrev count_of : Answer → ℕ
count_of (took n) = n
count_of again = 0
count_of (broke errno) = 0

abbrev kind_of : Answer → ℕ
kind_of (took n) = 0
kind_of again = 1
kind_of (broke errno) = 2

slow-took :
    (d d' : Device) (s : Bytes) (n : ℕ)
    → slow_write d s ≡ (d', took n)
    → (n ≤ length s) × (d'.1 ≡ d.1 ++ take n s) × (d'.0 ≤ d.0)
unfolding slow_write
slow-took (suc k, w) d' s n e = absurd (omega (arith, ap (λ r. kind_of r.1) e))
slow-took (zero, w) d' [] n e =
    let none_taken : 0 ≡ n = ap (λ r. count_of r.1) e in
    (
      omega (arith, none_taken),
      sym (ap (λ r. r.0.1) e) ∙ sym (append-nil w) ∙ ap (λ m. w ++ take m []) none_taken,
      omega (arith, ap (λ r. r.0.0) e),
    )
slow-took (zero, w) d' (b ∷ s) n e =
    let one : 1 ≡ n = ap (λ r. count_of r.1) e in
    (
      omega (arith, one),
      sym (ap (λ r. r.0.1) e) ∙ ap (λ m. w ++ take m (b ∷ s)) one,
      omega (arith, ap (λ r. r.0.0) e),
    )

slow-again :
    (d d' : Device) (s : Bytes) → slow_write d s ≡ (d', again) → (d'.1 ≡ d.1) × (d'.0 < d.0)
unfolding slow_write
slow-again (suc k, w) d' s e = (sym (ap (λ r. r.0.1) e), omega (arith, ap (λ r. r.0.0) e))
slow-again (zero, w) d' [] e = absurd (omega (arith, ap (λ r. kind_of r.1) e))
slow-again (zero, w) d' (b ∷ s) e = absurd (omega (arith, ap (λ r. kind_of r.1) e))

slow-broke :
    (d d' : Device) (s : Bytes) (errno : ℕ) → slow_write d s ≡ (d', broke errno) → d'.1 ≡ d.1
unfolding slow_write
slow-broke (suc k, w) d' s errno e = absurd (omega (arith, ap (λ r. kind_of r.1) e))
slow-broke (zero, w) d' [] errno e = absurd (omega (arith, ap (λ r. kind_of r.1) e))
slow-broke (zero, w) d' (b ∷ s) errno e = absurd (omega (arith, ap (λ r. kind_of r.1) e))

abbrev slow_writer : IsWrite slow_write
slow_writer = record {
  written = λ d. d.1;
  patience = λ d. d.0;
  took_some = slow-took;
  retried = slow-again;
  refused = slow-broke;
}

write_str_safe_example :
    (d : Device) × (out : ℤ) × (write_str_safe slow_write 20
        (3, [])
        (b'l' ∷ b'i' ∷ b'v' ∷ b'e' ∷ [])
      ≡ some (d, out))
    × Sent slow_write slow_writer (3, []) (b'l' ∷ b'i' ∷ b'v' ∷ b'e' ∷ []) 0 d out
write_str_safe_example =
    write_str_safe-Sent slow_write slow_writer 20 (3, []) (b'l' ∷ b'i' ∷ b'v' ∷ b'e' ∷ [])
      (omega arith)

-- All four bytes, after three interruptions.
write_str_safe_run :
    write_str_safe slow_write 20 (3, []) (b'l' ∷ b'i' ∷ b'v' ∷ b'e' ∷ [])
    ≡ some ((0, b'l' ∷ b'i' ∷ b'v' ∷ b'e' ∷ []), pos 4)
unfolding write_str_safe write_str_loop after_write slow_write
write_str_safe_run = refl
