-- ===== src/Getline/Buffer.antt =====
-- getline_wrapped stays in its buffer and makes progress.
use comment_subs.Prelude.{
  ℕ, ◌+◌, ◌*◌, ◌%◌, ◌^◌, ◌≤◌, ◌<◌, ◌≡◌, refl, ap, true, false, none, some, [], ◌∷◌, ◌++◌,
  if◌then◌else◌, ◌==◌, length, length-append, Bytes, arith, Bool-cases, inl, inr, lt→ltb, ◌>>=◌,
  u32_mod,
}
use comment_subs.Getline.Defs.{
  Got, next_line, grow, append_char, eof_char, end_of_file, end_of_line, getline_loop,
  getline_wrapped,
}

-- The size of the buffer behind a write.
abbrev pub grown : (size n : ℕ) → ℕ
grown size n = if n + 1 == size then size * 2 else size

-- With room for a further byte and fewer than 2 ^ 30 bytes, the write is right.
pub append_char_lem :
    (size : ℕ) (buf : Bytes) (ch : ℕ)
    → length buf < size
    → length buf + 1 < 2 ^ 30
    → (append_char size buf ch ≡ some (grown size (length buf), buf ++ ch ∷ []))
      × (length (buf ++ ch ∷ []) < grown size (length buf))
unfolding append_char grow
append_char_lem size buf ch h small =
    let grows : grow size (length buf + 1) ≡ some (grown size (length buf)) =
      ground (arith, h, small) in
    (rw (lt→ltb _ _ h, if◌then◌else◌, grows, ◌>>=◌), ground (arith, length-append buf (ch ∷ []), h))

-- The line feeds of a string.
unfoldable pub feeds : Bytes → ℕ
feeds [] = 0
feeds (c ∷ s) = (if c == b'\n' then 1 else 0) + feeds s

-- What is known of the result of the loop on a stream. A line that the end of the stream ends
-- counts as one more.
pub record Read (s : Bytes) (linenum : ℕ) (g : Got) : Type 0 where
  pub taken : Bytes
  pub split : s ≡ taken ++ g.rest
  pub progress : 0 < length s → 0 < length taken
  pub unended : ℕ
  pub counted : g.linenum ≡ (linenum + (feeds taken + unended)) % u32_mod
  pub at_most_one : unended ≤ 1
  pub only_at_end : unended ≡ 1 → g.rest ≡ []
  pub ended : g.line ≡ none → g.rest ≡ []

module _ (s : Bytes) (linenum : ℕ) (g : Got) where
  -- One character before what was read, which is no line feed.
  Read-cons : (ch : ℕ) → (ch == b'\n') ≡ false → Read s linenum g → Read (ch ∷ s) linenum g
  unfolding feeds
  Read-cons ch other r = record {
    taken = ch ∷ r.taken;
    split = ap (λ l. ch ∷ l) r.split;
    progress = λ h. omega arith;
    unended = r.unended;
    counted = ground (arith, other, r.counted);
    at_most_one = r.at_most_one;
    only_at_end = r.only_at_end;
    ended = r.ended;
  }

  -- A line feed before what was read.
  Read-feed : (ch : ℕ) → ch ≡ b'\n' → Read s (next_line linenum) g → Read (ch ∷ s) linenum g
  unfolding feeds
  Read-feed ch feed r = record {
    taken = ch ∷ r.taken;
    split = ap (λ l. ch ∷ l) r.split;
    progress = λ h. omega arith;
    unended = r.unended;
    counted = ground (arith, feed, r.counted);
    at_most_one = r.at_most_one;
    only_at_end = r.only_at_end;
    ended = r.ended;
  }

pub end_of_line_lem :
    (size : ℕ) (buf : Bytes) (linenum : ℕ) (rest : Bytes)
    → length buf < size
    → end_of_line size buf linenum rest
      ≡ some (record { line = some buf; linenum = next_line linenum; rest = rest })
unfolding end_of_line
end_of_line_lem size buf linenum rest h = ground (arith, h)

Read-eof :
    (size : ℕ) (buf : Bytes) (linenum : ℕ)
    → length buf < size
    → linenum < u32_mod
    → (g : Got) × (end_of_file size buf linenum ≡ some g) × Read [] linenum g
unfolding end_of_file feeds
Read-eof size [] linenum h small = (
  _,
  refl,
  record {
    taken = [];
    split = refl;
    progress = λ h. h;
    unended = 0;
    counted = omega (arith, small);
    at_most_one = omega arith;
    only_at_end = λ e. refl;
    ended = λ e. refl;
  },
)
Read-eof size (c ∷ buf) linenum h small = (
  _,
  end_of_line_lem size (c ∷ buf) linenum [] h,
  record {
    taken = [];
    split = refl;
    progress = λ h. h;
    unended = 1;
    counted = omega arith;
    at_most_one = omega arith;
    only_at_end = λ e. refl;
    ended = λ e. refl;
  },
)

Read-line :
    (buf : Bytes) (linenum ch : ℕ) (s : Bytes)
    → (ch == b'\n') ≡ true
    → Read (ch ∷ s) linenum (record { line = some buf; linenum = next_line linenum; rest = s })
unfolding feeds
Read-line buf linenum ch s feed = record {
  taken = ch ∷ [];
  split = refl;
  progress = λ h. omega arith;
  unended = 0;
  counted = rw feed (omega arith);
  at_most_one = omega arith;
  only_at_end = λ e. absurd (omega (arith, e));
  ended = λ e. cc;
}

getline_loop-Read :
    (size : ℕ) (buf : Bytes) (linenum : ℕ) (s : Bytes)
    → length buf < size
    → length buf + length s < 2 ^ 30
    → linenum < u32_mod
    → (g : Got) × (getline_loop size buf linenum s ≡ some g) × Read s linenum g
unfolding getline_loop
getline_loop-Read size buf linenum [] h few small = Read-eof size buf linenum h small
getline_loop-Read size buf linenum (ch ∷ []) h few small = elim (Bool-cases (ch == b'\n')) [
  | inl feed ↦
      (_, rw feed (end_of_line_lem size buf linenum [] h), Read-line buf linenum ch [] feed)
  | inr other ↦
      let c = if ch == b'\\' then eof_char else ch in
      let (put, room) = append_char_lem size buf c h (omega arith) in
      let (g, run, r) = Read-eof (grown size (length buf)) (buf ++ c ∷ []) linenum room small in
      (g, rw (other, put, ◌>>=◌) run, Read-cons [] linenum g ch other r)
]
getline_loop-Read size buf linenum (ch ∷ next ∷ s) h few small =
    let longer : (c : ℕ) → length (buf ++ c ∷ []) ≡ length buf + 1 =
      λ c. length-append buf (c ∷ []) in
    elim (Bool-cases (ch == b'\n')) [
      | inl feed ↦ (
        _,
        rw feed (end_of_line_lem size buf linenum (next ∷ s) h),
        Read-line buf linenum ch (next ∷ s) feed,
      )
      | inr other ↦ elim (Bool-cases (ch == b'\\')) [
        | inr plain ↦
            let (put, room) = append_char_lem size buf ch h (omega arith) in
            let (g, run, r) =
              getline_loop-Read (grown size (length buf)) (buf ++ ch ∷ []) linenum (next ∷ s) room
                (omega (arith, longer ch, few)) small in
            (g, rw (other, plain, put, ◌>>=◌) run, Read-cons (next ∷ s) linenum g ch other r)
        | inl escape ↦ elim (Bool-cases (next == b'\n')) [
          | inl feed ↦
              let (g, run, r) =
                getline_loop-Read size buf (next_line linenum) s h (omega arith) (omega arith) in
              (
                g,
                rw (other, escape, feed) run,
                Read-cons (next ∷ s) linenum g ch other
                    (Read-feed s linenum g next (ground (arith, feed)) r),
              )
          | inr kept ↦
              let (put, room) = append_char_lem size buf next h (omega arith) in
              let (g, run, r) =
                getline_loop-Read (grown size (length buf)) (buf ++ next ∷ []) linenum s room
                  (omega (arith, longer next, few)) small in
              (
                g,
                rw (other, escape, kept, put, ◌>>=◌) run,
                Read-cons (next ∷ s) linenum g ch other (Read-cons s linenum g next kept r),
              )
        ]
      ]
    ]

-- On a stream of fewer than 2 ^ 30 bytes, getline_wrapped never writes behind its buffer, no `int`
-- overflows, and it returns. It takes at least one byte of a stream that is not at its end. To the
-- number of lines it adds the line feeds among the bytes that it takes, and one more at most, where
-- the end of the stream ends a line; the number wraps around at 2 ^ 32. It returns NULL only at the
-- end of the stream.
pub getline_wrapped-Read :
    (s : Bytes) (linenum : ℕ)
    → length s < 2 ^ 30
    → linenum < u32_mod
    → (g : Got) × (getline_wrapped s linenum ≡ some g) × Read s linenum g
unfolding getline_wrapped
getline_wrapped-Read s linenum few small =
    getline_loop-Read 256 [] linenum s (omega arith) (omega (arith, few)) small
