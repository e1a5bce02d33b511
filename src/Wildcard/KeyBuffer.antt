-- ===== src/Wildcard/KeyBuffer.antt =====
-- `struct buffer` and the functions buf_*. `granted` says whether realloc gets its memory. `none`
-- is an access outside of the block, or an assertion that fails.
use comment_subs.Prelude.{
  ℕ, ◌+◌, ◌-◌, ◌*◌, ◌/◌, ◌%◌, Bool, true, false, Option, none, some, [], ◌∷◌, ◌==◌, if◌then◌else◌,
  leb, ◌>>=◌, Bytes, add32, u32_mod,
}
use comment_subs.Memory.{Block, store, realloc}

pub record Buffer : Type 0 where
  pub bytes : Block ℕ
  pub size : ℕ
  pub used : ℕ

abbrev pub buf_step : ℕ
buf_step = 2048

-- `sz`
unfoldable pub buf_room : ℕ → ℕ
buf_room newsize = if newsize % buf_step == 0 then newsize else (newsize / buf_step + 1) * buf_step

unfoldable pub buf_grow : (granted : Bool) → Buffer → ℕ → Buffer × Bool
buf_grow granted buf newsize =
    let sz = buf_room newsize in
    if buf.size == sz
    then (buf, true)
    else if granted
    then (record buf { bytes = realloc buf.bytes sz; size = sz % u32_mod }, true)
    else if sz == 0
    then (record buf { bytes = []; size = 0 }, true)
    else (buf, false)

unfoldable pub buf_init : Buffer
buf_init = record { bytes = []; size = 0; used = 0 }

-- The C string at the start of a block.
unfoldable pub string_at : Block ℕ → Option Bytes
string_at [] = none
string_at (none ∷ rest) = none
string_at (some c ∷ rest) =
    let further = string_at rest in if c == 0 then some [] else (further >>= λ cs. some (c ∷ cs))

-- `some none` is NULL.
unfoldable pub buf_steal : (granted : Bool) → Buffer → Option (Option Bytes)
buf_steal false buf = some none
buf_steal true buf = do
  bytes ← store (realloc buf.bytes (add32 buf.used 1)) buf.used 0
  s ← string_at bytes
  some (some s)

-- What buf_str does behind the call of buf_grow.
unfoldable pub buf_terminated : Buffer × Bool → Option (Option Bytes × Buffer)
buf_terminated (buf, false) = some (none, buf)
buf_terminated (buf, true) = do
  bytes ← store buf.bytes buf.used 0
  s ← string_at bytes
  some (some s, record buf { bytes = bytes })

unfoldable pub buf_str : (granted : Bool) → Buffer → Option (Option Bytes × Buffer)
buf_str granted buf = buf_terminated (buf_grow granted buf (add32 buf.used 1))

-- What buf_pushchar does behind the call of buf_grow.
unfoldable pub buf_put : Buffer × Bool → ℕ → Option (Buffer × Bool)
buf_put (buf, false) ch = some (buf, false)
buf_put (buf, true) ch = do
  bytes ← store buf.bytes buf.used ch
  some (record buf { bytes = bytes; used = add32 buf.used 1 }, true)

unfoldable pub buf_pushchar : (granted : Bool) → Buffer → ℕ → Option (Buffer × Bool)
buf_pushchar granted buf ch = buf_put (buf_grow granted buf (add32 buf.used 1)) ch

-- The number of characters that are counted, pushed or not, and the buffer.
unfoldable pub buf_pushchars : (granted : Bool) → Buffer → Bytes → Option (Buffer × ℕ)
buf_pushchars granted buf [] = some (buf, 0)
buf_pushchars granted buf (ch ∷ str) = do
  (buf1, ok) ← buf_pushchar granted buf ch
  (buf2, i) ← buf_pushchars granted buf1 str
  some (buf2, add32 i 1)

unfoldable pub buf_popchar : Buffer → Option Buffer
buf_popchar buf = if leb 1 buf.used then some (record buf { used = buf.used - 1 }) else none

unfoldable pub buf_popchars : Buffer → ℕ → Option Buffer
buf_popchars buf n = if leb n buf.used then some (record buf { used = buf.used - n }) else none

unfoldable pub buf_clear : Buffer → Buffer
buf_clear buf = record buf { used = 0 }
