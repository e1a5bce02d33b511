-- ===== src/IndexFile/Format.antt =====
-- Words, flags and strings of the file. A file is the list of its bytes. A reader takes the bytes
-- that are left and returns the value and the rest. What the source does at the end of the file is
-- not modelled: `fatal` in read_error is empty, so there it goes on with EOF or with bytes that were
-- never written. `none` is a read that gets there, so a result other than `none` shows that there
-- was none.
use comment_subs.Prelude.{
  ℕ, ◌+◌, ◌*◌, ◌/◌, ◌%◌, ◌^◌, Bool, Option, none, some, [], ◌∷◌, ◌==◌, not, if◌then◌else◌, ◌>>=◌,
  Bytes,
}

abbrev pub node_flag_prefix : ℕ
node_flag_prefix = 0x80000000

abbrev pub node_flag_values : ℕ
node_flag_values = 0x40000000

abbrev pub node_flag_childs : ℕ
node_flag_childs = 0x20000000

-- `offset |= flag`, for a flag of one bit
unfoldable pub set_flag : ℕ → ℕ → ℕ
set_flag offset flag = if offset / flag % 2 == 0 then offset + flag else offset

-- `offset & flag`, for a flag of one bit
unfoldable pub has_flag : ℕ → ℕ → Bool
has_flag offset flag = not (offset / flag % 2 == 0)

-- `offset & INDEX_NODE_MASK`
abbrev pub masked : ℕ → ℕ
masked offset = offset % 0x10000000

-- `htonl` and the bytes that fwrite then writes
unfoldable pub be32 : ℕ → Bytes
be32 u = (u / 2 ^ 24 % 256) ∷ (u / 2 ^ 16 % 256) ∷ (u / 2 ^ 8 % 256) ∷ (u % 256) ∷ []

unfoldable pub read_char : Bytes → Option (ℕ × Bytes)
read_char [] = none
read_char (c ∷ s) = some (c, s)

unfoldable pub read_long : Bytes → Option (ℕ × Bytes)
read_long (a ∷ b ∷ c ∷ d ∷ s) = some (a * 2 ^ 24 + b * 2 ^ 16 + c * 2 ^ 8 + d, s)
read_long _ = none

-- `buf_freadchars`: the characters before the next NUL
unfoldable pub read_string : Bytes → Option (Bytes × Bytes)
read_string [] = none
read_string (c ∷ s) =
    let more = read_string s in if c == 0 then some ([], s) else (more >>= λ r. some (c ∷ r.0, r.1))
