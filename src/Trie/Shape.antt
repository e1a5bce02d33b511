-- ===== src/Trie/Shape.antt =====
-- Well-formed trees: the characters are 7-bit and not NUL, the values fit the file format, and `first` and `last` bound the children.
use comment_subs.Prelude.{
  ℕ, ◌≤◌, ◌<◌, ◌≡◌, some, ==_iff, List, [], ◌∷◌, Bytes, arith, ◌==◌, ltb, Bool-cases, inl, inr,
  u32_mod,
}
use comment_subs.Trie.Defs.{
  Value, Node, node, Children, null, child, get_child, set_child, childmax, place_value,
}

abbrev pub IsAscii : Bytes → Type 0
IsAscii [] = Unit
IsAscii (c ∷ cs) = (0 < c) × (c < childmax) × IsAscii cs

abbrev pub IsText : Bytes → Type 0
IsText [] = Unit
IsText (c ∷ cs) = (0 < c) × IsText cs

-- A value as the file can hold it.
abbrev pub ValueFits : Value → Type 0
ValueFits v = (v.priority < u32_mod) × IsText v.value

abbrev pub ValuesFit : List Value → Type 0
ValuesFit [] = Unit
ValuesFit (v ∷ vs) = ValueFits v × ValuesFit vs

unfoldable mutual
  pub NodeFits : Node → Type 0
  NodeFits (node prefix values first last children) =
      IsAscii prefix × ValuesFit values × (last < childmax) × ChildrenFit first last children

  pub ChildrenFit : (first last : ℕ) → Children → Type 0
  ChildrenFit first last null = Unit
  ChildrenFit first last (child ch n others) =
      (ch < childmax) × (first ≤ ch) × (ch ≤ last) × NodeFits n × ChildrenFit first last others

-- Wider bounds hold too.
pub ChildrenFit-mono :
    (cs : Children) {first last first' last' : ℕ}
    → first' ≤ first
    → last ≤ last'
    → ChildrenFit first last cs
    → ChildrenFit first' last' cs
unfolding ChildrenFit
ChildrenFit-mono null h k fits = tt
ChildrenFit-mono (child ch n cs) h k fits =
    (fits.0, omega arith, omega arith, fits.3, ChildrenFit-mono cs h k fits.4)

-- What is known of a child that is there.
pub get_child-fits :
    (cs : Children) {first last : ℕ} (ch : ℕ) {n : Node}
    → ChildrenFit first last cs
    → get_child cs ch ≡ some n
    → (ch < childmax) × (first ≤ ch) × (ch ≤ last) × NodeFits n
unfolding ChildrenFit get_child
get_child-fits null ch fits e = cc
get_child-fits (child k m cs) ch {n} fits e = elim (Bool-cases (k == ch)) [
  | inl same ↦
      let at : k ≡ ch = (==_iff k ch).0 same in
      let e' : some m ≡ some n = rw same at e in
      let it : m ≡ n = cc in (omega arith, omega arith, omega arith, rw (← it) fits.3)
  | inr other ↦ get_child-fits cs ch fits.4 (rw other at e)
]

pub set_child-fits :
    (cs : Children) {first last : ℕ} (ch : ℕ) (n : Node)
    → ch < childmax
    → first ≤ ch
    → ch ≤ last
    → NodeFits n
    → ChildrenFit first last cs
    → ChildrenFit first last (set_child cs ch n)
unfolding ChildrenFit set_child
set_child-fits null ch n a b c d fits = (a, b, c, d, tt)
set_child-fits (child k m cs) ch n a b c d fits = elim (Bool-cases (k == ch)) [
  | inl same ↦ rw same (fits.0, fits.1, fits.2, d, fits.4)
  | inr other ↦ rw other (fits.0, fits.1, fits.2, fits.3, set_child-fits cs ch n a b c d fits.4)
]

pub place_value-fits :
    (vs : List Value) (v : Value) → ValueFits v → ValuesFit vs → ValuesFit (place_value vs v)
unfolding place_value
place_value-fits [] v h fits = (h, tt)
place_value-fits (w ∷ vs) v h fits = elim (Bool-cases (ltb w.priority v.priority)) [
  | inl lower ↦ rw lower (fits.0, place_value-fits vs v h fits.1)
  | inr here ↦ rw here (h, fits)
]
