-- ===== src/Wildcard/Reach.antt =====
-- How long the keys below a node can be, which bounds the depth of the tree and the buffer.
use Prim.Native.Nat.{max}
use comment_subs.Prelude.{
  ℕ, suc, ◌+◌, ◌≤◌, ◌<◌, ◌≡◌, some, arith, length, Bool-cases, inl, inr, ◌==◌,
}
use comment_subs.Trie.{Node, node, Children, null, child, get_child}

unfoldable mutual
  pub reach : Node → ℕ
  reach (node prefix values first last children) = length prefix + reach_below children

  pub reach_below : Children → ℕ
  reach_below null = 0
  reach_below (child ch n others) = max (suc (reach n)) (reach_below others)

pub get_child-reach :
    (cs : Children) (ch : ℕ) (n : Node) → get_child cs ch ≡ some n → suc (reach n) ≤ reach_below cs
unfolding get_child reach_below
get_child-reach null ch n e = cc
get_child-reach (child k m cs) ch n e = elim (Bool-cases (k == ch)) [
  | inl same ↦
      let e' : some m ≡ some n = rw same at e in
      let it : m ≡ n = cc in
      let far : suc (reach m) ≤ max (suc (reach m)) (reach_below cs) = omega arith in rw (← it) far
  | inr other ↦ let below = get_child-reach cs ch n (rw other at e) in omega (arith, below)
]

-- No child is at the character NUL, which ends a string.
unfoldable mutual
  pub NoNul : Node → Type 0
  NoNul (node prefix values first last children) = NoNulBelow children

  pub NoNulBelow : Children → Type 0
  NoNulBelow null = Unit
  NoNulBelow (child ch n others) = (0 < ch) × NoNul n × NoNulBelow others

pub get_child-NoNul :
    (cs : Children) (ch : ℕ) (n : Node)
    → NoNulBelow cs
    → get_child cs ch ≡ some n
    → (0 < ch) × NoNul n
unfolding get_child NoNulBelow
get_child-NoNul null ch n texts e = cc
get_child-NoNul (child k m cs) ch n texts e = elim (Bool-cases (k == ch)) [
  | inl same ↦
      let e' : some m ≡ some n = rw same at e in
      let it : m ≡ n = cc in (ground (arith, texts.0), rw (← it) texts.1)
  | inr other ↦ get_child-NoNul cs ch n texts.2 (rw other at e)
]
