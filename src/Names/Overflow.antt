-- ===== src/Names/Overflow.antt =====
-- alias_normalize on aliases with a bracket that is longer than the buffer.
use comment_subs.Prelude.{
  ℕ, ◌+◌, ◌-◌, leb, ◌≤◌, ◌<◌, ◌≡◌, true, false, [], ◌∷◌, ◌++◌, ◌==◌, Bytes, length, arith,
  Bool-cases, inl, inr,
}
use comment_subs.Names.Defs.{overflow, alias_loop, alias_normalize, path_max}
use comment_subs.Names.Modname.{Without}

-- A bracket that is not closed before the end of the buffer is copied beyond it.
alias_loop-overflow :
    (room : ℕ) (t rest : Bytes)
    → Without b']' t
    → room < length t
    → alias_loop true room (t ++ rest) ≡ overflow
unfolding alias_loop
alias_loop-overflow room [] rest w h = absurd (omega arith)
alias_loop-overflow room (c ∷ t) rest w h =
    let inner : (c == b']') ≡ false = ground (arith, w.0) in
    elim (Bool-cases (room == 0)) [
      | inl full ↦ rw (inner, full)
      | inr there ↦ rw (inner, there, alias_loop-overflow (room - 1) t rest w.1 (ground arith))
    ]

-- The characters before the first bracket are copied.
before-overflow :
    (room : ℕ) (p t rest : Bytes)
    → Without b'[' p
    → Without b']' p
    → Without b']' t
    → length p + 1 < room
    → room ≤ length p + length t
    → alias_loop false room (p ++ b'[' ∷ (t ++ rest)) ≡ overflow
unfolding alias_loop
before-overflow room [] t rest open_ close w h k =
    let more : leb room 1 ≡ false = ground (arith, h) in
    let there : (room == 0) ≡ false = ground (arith, h) in
    rw (more, there, alias_loop-overflow (room - 1) t rest w (omega arith))
before-overflow room (c ∷ p) t rest open_ close w h k =
    let more : leb room 1 ≡ false = ground (arith, h) in
    let there : (room == 0) ≡ false = ground (arith, h) in
    let plain : (c == b'[') ≡ false = ground (arith, open_.0) in
    let other : (c == b']') ≡ false = ground (arith, close.0) in
    let further =
      before-overflow (room - 1) p t rest open_.1 close.1 w (omega arith) (omega arith) in
    elim (Bool-cases (c == b'-')) [
      | inl dash ↦ rw (more, dash, there, further)
      | inr letter ↦ rw (more, letter, other, plain, there, further)
    ]

-- alias_normalize writes beyond its buffer on each alias whose first bracket is a '[' that stands
-- before the last two of the PATH_MAX bytes of the buffer, and that has no ']' in the characters
-- that follow up to one more than the buffer has room for.
pub alias_normalize-overflow :
    (p t rest : Bytes)
    → Without b'[' p
    → Without b']' p
    → Without b']' t
    → length p + 1 < path_max
    → path_max ≤ length p + length t
    → alias_normalize (p ++ b'[' ∷ (t ++ rest)) ≡ overflow
unfolding alias_normalize
alias_normalize-overflow p t rest open_ close w h k =
    before-overflow path_max p t rest open_ close w h k
