-- ===== src/Names/Alias.antt =====
-- alias_normalize on aliases that fit the buffer.
use comment_subs.Prelude.{
  ℕ, ◌-◌, ◌<◌, ◌≡◌, refl, Bool, true, false, Option, none, some, [], ◌∷◌, ◌==◌, leb, if◌then◌else◌,
  Bytes, length, arith, Bool-cases, inl, inr, sym, ◌∙◌, ap,
}
use comment_subs.Names.Defs.{Copy, done, invalid, push, alias_loop, alias_normalize, path_max}

abbrev pub prepend : ℕ → Option Bytes → Option Bytes
prepend c none = none
prepend c (some t) = some (c ∷ t)

-- The grammar of aliases, with no buffer: '-' becomes '_' outside of brackets, each ']' closes a
-- bracket, and a bracket that was opened is closed.
unfoldable pub translate : (inside : Bool) → Bytes → Option Bytes
translate false [] = some []
translate true [] = none
translate false (c ∷ s) =
    let outer = translate false s in
    let inner = translate true s in
    if c == b'-'
    then prepend b'_' outer
    else if c == b']'
    then none
    else if c == b'['
    then prepend c inner
    else prepend c outer
translate true (c ∷ s) =
    let outer = translate false s in
    let inner = translate true s in if c == b']' then prepend c outer else prepend c inner

-- A copy that meets no end of the buffer.
abbrev pub copied : Option Bytes → Copy
copied none = invalid
copied (some t) = done t

push-copied : (c : ℕ) (o : Option Bytes) → push c (copied o) ≡ copied (prepend c o)
push-copied c none = refl
push-copied c (some t) = refl

pub choose :
    (c : ℕ) (outer inner : Option Bytes)
    → (if c == b'-'
        then push b'_' (copied outer)
        else if c == b']'
        then invalid
        else if c == b'['
        then push c (copied inner)
        else push c (copied outer))
      ≡ copied (
          if c == b'-'
          then prepend b'_' outer
          else if c == b']'
          then none
          else if c == b'['
          then prepend c inner
          else prepend c outer)
choose c outer inner =
    ground (arith, push-copied b'_' outer, push-copied c inner, push-copied c outer)

pub close :
    (c : ℕ) (outer inner : Option Bytes)
    → (if c == b']' then push c (copied outer) else push c (copied inner))
      ≡ copied (if c == b']' then prepend c outer else prepend c inner)
close c outer inner = ground (arith, push-copied c inner, push-copied c outer)

alias_loop-translate :
    (inside : Bool) (room : ℕ) (s : Bytes)
    → length s < room
    → alias_loop inside room s ≡ copied (translate inside s)
unfolding alias_loop translate
alias_loop-translate false room [] h = ground arith
alias_loop-translate true room [] h = refl
alias_loop-translate false room (c ∷ s) h =
    let more : leb room 1 ≡ false = ground arith in
    let there : (room == 0) ≡ false = ground arith in
    rw
      (
        more,
        there,
        alias_loop-translate false (room - 1) s (omega arith),
        alias_loop-translate true (room - 1) s (omega arith),
      )
      (choose c (translate false s) (translate true s))
alias_loop-translate true room (c ∷ s) h =
    let there : (room == 0) ≡ false = ground arith in
    rw
      (
        there,
        alias_loop-translate false (room - 1) s (omega arith),
        alias_loop-translate true (room - 1) s (omega arith),
      )
      (close c (translate false s) (translate true s))

-- On an alias that is shorter than the buffer, alias_normalize follows the grammar: it stays in
-- the buffer, and returns an error exactly where the brackets do not match.
pub alias_normalize-translate :
    (alias : Bytes)
    → length alias < path_max
    → alias_normalize alias ≡ copied (translate false alias)
unfolding alias_normalize
alias_normalize-translate alias h = alias_loop-translate false path_max alias h

-- A result of the grammar is as long as its input, and the grammar keeps it as it is.
abbrev Kept : (inside : Bool) → Bytes → Option Bytes → Type 0
Kept inside s none = Unit
Kept inside s (some t) = (length t ≡ length s) × (translate inside t ≡ some t)

Kept-dash :
    (s : Bytes) (o : Option Bytes) (c : ℕ) → Kept false s o → Kept false (c ∷ s) (prepend b'_' o)
unfolding translate
Kept-dash s none c h = tt
Kept-dash s (some t) c h = (omega arith, rw h.1)

Kept-plain :
    (s : Bytes) (o : Option Bytes) (c : ℕ)
    → (c == b'-') ≡ false
    → (c == b']') ≡ false
    → (c == b'[') ≡ false
    → Kept false s o
    → Kept false (c ∷ s) (prepend c o)
unfolding translate
Kept-plain s none c x y z h = tt
Kept-plain s (some t) c x y z h = (omega arith, rw (x, y, z, h.1))

Kept-open :
    (s : Bytes) (o : Option Bytes) (c : ℕ)
    → (c == b'[') ≡ true
    → Kept true s o
    → Kept false (c ∷ s) (prepend c o)
unfolding translate
Kept-open s none c x h = tt
Kept-open s (some t) c x h =
    let a : (c == b'-') ≡ false = ground arith in
    let b : (c == b']') ≡ false = ground arith in (omega arith, rw (a, b, x, h.1))

Kept-close :
    (s : Bytes) (o : Option Bytes) (c : ℕ)
    → (c == b']') ≡ true
    → Kept false s o
    → Kept true (c ∷ s) (prepend c o)
unfolding translate
Kept-close s none c x h = tt
Kept-close s (some t) c x h = (omega arith, rw (x, h.1))

Kept-inner :
    (s : Bytes) (o : Option Bytes) (c : ℕ)
    → (c == b']') ≡ false
    → Kept true s o
    → Kept true (c ∷ s) (prepend c o)
unfolding translate
Kept-inner s none c x h = tt
Kept-inner s (some t) c x h = (omega arith, rw (x, h.1))

translate-Kept : (inside : Bool) (s : Bytes) → Kept inside s (translate inside s)
unfolding translate
translate-Kept false [] = (refl, refl)
translate-Kept true [] = tt
translate-Kept false (c ∷ s) =
    let outer = translate-Kept false s in
    let inner = translate-Kept true s in
    elim (Bool-cases (c == b'-')) [
      | inl dash ↦ rw dash (Kept-dash s (translate false s) c outer)
      | inr x ↦ elim (Bool-cases (c == b']')) [
        | inl stray ↦ rw (x, stray) tt
        | inr y ↦ elim (Bool-cases (c == b'[')) [
          | inl open_bracket ↦
              rw (x, y, open_bracket) (Kept-open s (translate true s) c open_bracket inner)
          | inr z ↦ rw (x, y, z) (Kept-plain s (translate false s) c x y z outer)
        ]
      ]
    ]
translate-Kept true (c ∷ s) = elim (Bool-cases (c == b']')) [
  | inl x ↦ rw x (Kept-close s (translate false s) c x (translate-Kept false s))
  | inr x ↦ rw x (Kept-inner s (translate true s) c x (translate-Kept true s))
]

copied-done : (o : Option Bytes) {t : Bytes} → copied o ≡ done t → o ≡ some t
copied-done none e = cc
copied-done (some u) e = cc

-- alias_normalize keeps the length of an alias that fits, and applied to its own result it
-- changes nothing.
pub alias_normalize_idem :
    (alias t : Bytes)
    → length alias < path_max
    → alias_normalize alias ≡ done t
    → (length t ≡ length alias) × (alias_normalize t ≡ done t)
alias_normalize_idem alias t h e =
    let is : translate false alias ≡ some t =
      copied-done _ (sym (alias_normalize-translate alias h) ∙ e) in
    let kept : Kept false alias (some t) = rw is at (translate-Kept false alias) in
    (kept.0, alias_normalize-translate t (omega arith) ∙ ap copied kept.1)
