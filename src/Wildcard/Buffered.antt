-- ===== src/Wildcard/Buffered.antt =====
-- What the functions buf_* do to a buffer that has some characters, where realloc gets its memory.
use mathlib.Core.Path.{subst}
use comment_subs.Prelude.{
  ℕ, ◌+◌, ◌-◌, ◌*◌, ◌%◌, ◌≤◌, ◌<◌, ◌≡◌, refl, ap, sym, ◌∙◌, true, false, some, [], ◌∷◌, ◌++◌,
  append_assoc, append-nil, arith, length, length-append, Bytes, u32_mod, add32, add32_small, ◌==◌,
  Bool-cases, inl, inr, ◌>>=◌, le→leb,
}
use comment_subs.Memory.{
  Block, filled, length-filled, filled-insert, filled-nil, store, realloc, store-append,
  realloc-append, filled_regroup,
}
use comment_subs.Trie.Shape.{IsText}
use comment_subs.Wildcard.KeyBuffer.{
  Buffer, buf_step, buf_room, buf_grow, buf_init, buf_put, buf_pushchar, buf_pushchars, buf_popchar,
  buf_popchars, buf_terminated, buf_str, string_at,
}

-- The first `used` bytes are `s`.
pub record IsBuffer (b : Buffer) (s : Bytes) : Type 0 where
  pub rest : Block ℕ
  pub split : b.bytes ≡ filled s ++ rest
  pub used_eq : b.used ≡ length s
  pub size_eq : b.size ≡ length b.bytes

-- Room for as many characters and one more, below the wrap-around of unsigned.
abbrev pub Short : ℕ → Type 0
Short n = n + 2 * buf_step < u32_mod

pub buf_room-le : (n : ℕ) → (n ≤ buf_room n) × (buf_room n ≤ n + buf_step)
unfolding buf_room
buf_room-le n = ground arith

pub buf_init-IsBuffer : IsBuffer buf_init []
unfolding buf_init
buf_init-IsBuffer = record {
  rest = [];
  split = rw (filled-nil) refl;
  used_eq = refl;
  size_eq = refl;
}

-- The buffer that moved keeps its characters.
module _ (b : Buffer) (s : Bytes) (is : IsBuffer b s) (short : Short (length s)) where
  abbrev Grown : Buffer → Type 0
  Grown b' =
      (buf_grow true b (add32 b.used 1) ≡ (b', true)) × IsBuffer b' s × (length s < length b'.bytes)

  moved_lem :
      (tail : Block ℕ)
      → (b.size == buf_room (length s + 1)) ≡ false
      → realloc (filled s ++ is.rest) (buf_room (length s + 1)) ≡ filled s ++ tail
      → length (filled s) + length tail ≡ buf_room (length s + 1)
      → Grown (record b { bytes = filled s ++ tail; size = buf_room (length s + 1) % u32_mod })
  unfolding buf_grow
  moved_lem tail differ moved size =
      let next : add32 b.used 1 ≡ length s + 1 = omega (arith, is.used_eq) in
      let room = buf_room-le (length s + 1) in
      (
        rw (next, differ, is.split, moved),
        record {
          rest = tail;
          split = refl;
          used_eq = is.used_eq;
          size_eq = omega (arith, size, length-append (filled s) tail, room.1);
        },
        omega (arith, size, length-append (filled s) tail, room.0, length-filled s),
      )

  -- The buffer that grows keeps its characters and has room for one more.
  grow_lem : (b' : Buffer) × Grown b'
  unfolding buf_grow
  grow_lem =
      let next : add32 b.used 1 ≡ length s + 1 = omega (arith, is.used_eq) in
      let room = buf_room-le (length s + 1) in
      elim (Bool-cases (b.size == buf_room (length s + 1))) [
        | inl same ↦
            let at : b.size ≡ buf_room (length s + 1) = ground arith in
            (b, (rw (next, same), is, omega (arith, at, is.size_eq, room.0)))
        | inr differ ↦
            let (tail, moved, size) =
              realloc-append (filled s) is.rest (buf_room (length s + 1))
                (omega (arith, length-filled s, room.0)) in
            (_, moved_lem tail differ moved size)
      ]

-- A write behind the characters of a buffer with room.
write_lem :
    (s : Bytes) (rest : Block ℕ) (n ch : ℕ)
    → n ≡ length s
    → length s < length (filled s ++ rest)
    → (tail : Block ℕ) × (store (filled s ++ rest) n ch ≡ some (filled (s ++ ch ∷ []) ++ tail))
      × (length (filled s ++ rest) ≡ length (filled (s ++ ch ∷ []) ++ tail))
write_lem s [] n ch at room = absurd (omega (arith, length-append (filled s) [], length-filled s))
write_lem s (slot ∷ rest) n ch at room = (
  rest,
  rw
      (
        store-append (filled s) rest slot ch n (omega (arith, length-filled s)),
        filled-insert,
        filled-nil,
      )
      refl,
  omega (
    arith,
    length-append (filled s) (slot ∷ rest),
    length-append (filled (s ++ ch ∷ [])) rest,
    length-filled s,
    length-filled (s ++ ch ∷ []),
    length-append s (ch ∷ []),
  ),
)

pub buf_pushchar-IsBuffer :
    (b : Buffer) (s : Bytes) (ch : ℕ)
    → IsBuffer b s
    → Short (length s)
    → (b' : Buffer) × (buf_pushchar true b ch ≡ some (b', true)) × IsBuffer b' (s ++ ch ∷ [])
unfolding buf_pushchar buf_put
buf_pushchar-IsBuffer b s ch is short =
    let (b1, (grown, has, room)) = grow_lem b s is short in
    let (tail, stored, size) =
      write_lem s has.rest b1.used ch has.used_eq (omega (arith, ap length has.split)) in
    (
      record b1 { bytes = filled (s ++ ch ∷ []) ++ tail; used = add32 b1.used 1 },
      rw (grown, has.split, stored),
      record {
        rest = tail;
        split = refl;
        used_eq = omega (arith, has.used_eq, length-append s (ch ∷ []));
        size_eq = omega (arith, has.size_eq, ap length has.split, size);
      },
    )

pub buf_popchars-IsBuffer :
    (b : Buffer) (s t : Bytes) (n : ℕ)
    → IsBuffer b (s ++ t)
    → n ≡ length t
    → (b' : Buffer) × (buf_popchars b n ≡ some b') × IsBuffer b' s
unfolding buf_popchars
buf_popchars-IsBuffer b s t n is e =
    let enough : n ≤ b.used = omega (arith, is.used_eq, length-append s t) in
    (
      record b { used = b.used - n },
      rw (le→leb n b.used enough),
      record {
        rest = filled t ++ is.rest;
        split = is.split ∙ sym (filled_regroup s t is.rest);
        used_eq = omega (arith, is.used_eq, length-append s t);
        size_eq = is.size_eq;
      },
    )

pub buf_popchar-IsBuffer :
    (b : Buffer) (s : Bytes) (ch : ℕ)
    → IsBuffer b (s ++ ch ∷ [])
    → (b' : Buffer) × (buf_popchar b ≡ some b') × IsBuffer b' s
unfolding buf_popchar buf_popchars
buf_popchar-IsBuffer b s ch is = buf_popchars-IsBuffer b s (ch ∷ []) 1 is refl

-- On a buffer that has the characters `s`, where realloc gets its memory and the length stays far
-- below the wrap-around of unsigned: buf_pushchars writes within the block, which grows as needed,
-- returns the number of characters, and the buffer then has the characters `s` and those of `t`.
pub buf_pushchars-IsBuffer :
    (t : Bytes) (b : Buffer) (s : Bytes)
    → IsBuffer b s
    → Short (length s + length t)
    → (b' : Buffer) × (buf_pushchars true b t ≡ some (b', length t)) × IsBuffer b' (s ++ t)
unfolding buf_pushchars
buf_pushchars-IsBuffer [] b s is short = (b, refl, subst (IsBuffer b) (sym (append-nil s)) is)
buf_pushchars-IsBuffer (ch ∷ t) b s is short =
    let (b1, pushed, has) = buf_pushchar-IsBuffer b s ch is (omega arith) in
    let (b2, more, have) =
      buf_pushchars-IsBuffer t b1 (s ++ ch ∷ []) has (omega (arith, length-append s (ch ∷ []))) in
    (
      b2,
      rw (pushed, ◌>>=◌, more, ◌>>=◌, add32_small (length t) 1 (omega arith))
          (ap (λ n. some (b2, n)) (omega arith)),
      subst (IsBuffer b2) (append_assoc s (ch ∷ []) t) have,
    )

-- A text is the C string that its characters and a NUL make.
pub string_at-filled :
    (s : Bytes) (tail : Block ℕ) → IsText s → string_at (filled (s ++ 0 ∷ []) ++ tail) ≡ some s
unfolding string_at filled
string_at-filled [] tail text = refl
string_at-filled (c ∷ s) tail text =
    let nonzero : (c == 0) ≡ false = ground (arith, text.0) in
    rw (nonzero, string_at-filled s tail text.1)

terminator : (s : Bytes) (tail : Block ℕ) → filled (s ++ 0 ∷ []) ++ tail ≡ filled s ++ some 0 ∷ tail
terminator s tail = rw (filled-insert, filled-nil) refl

-- The string is returned, and the buffer keeps its characters.
pub buf_str-IsBuffer :
    (b : Buffer) (s : Bytes)
    → IsBuffer b s
    → Short (length s)
    → IsText s
    → (b' : Buffer) × (buf_str true b ≡ some (some s, b')) × IsBuffer b' s
unfolding buf_str buf_terminated
buf_str-IsBuffer b s is short text =
    let (b1, (grown, has, room)) = grow_lem b s is short in
    let (tail, stored, size) =
      write_lem s has.rest b1.used 0 has.used_eq (omega (arith, ap length has.split)) in
    (
      record b1 { bytes = filled (s ++ 0 ∷ []) ++ tail },
      rw (grown, has.split, stored, ◌>>=◌, string_at-filled s tail text),
      record {
        rest = some 0 ∷ tail;
        split = terminator s tail;
        used_eq = has.used_eq;
        size_eq = omega (arith, has.size_eq, ap length has.split, size);
      },
    )
