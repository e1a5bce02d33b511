-- ===== src/Wildcard/Mapped/Ordered.antt =====
-- Trees whose values are in strictly ascending order at every node.
use comment_subs.Prelude.{ℕ, ◌≡◌, some, [], ◌==◌, Bool-cases, inl, inr}
use comment_subs.Trie.{Node, node, Children, null, child, get_child}
use comment_subs.IndexFile.Mapped.Agree.{Ascending}

unfoldable mutual
  pub IsOrdered : Node → Type 0
  IsOrdered (node prefix values first last children) = Ascending [] values × AllOrdered children

  pub AllOrdered : Children → Type 0
  AllOrdered null = Unit
  AllOrdered (child ch n others) = IsOrdered n × AllOrdered others

pub get_child-IsOrdered :
    (cs : Children) (ch : ℕ) (n : Node) → AllOrdered cs → get_child cs ch ≡ some n → IsOrdered n
unfolding get_child AllOrdered
get_child-IsOrdered null ch n ordered e = cc
get_child-IsOrdered (child k m cs) ch n ordered e = elim (Bool-cases (k == ch)) [
  | inl same ↦ let e' : some m ≡ some n = rw same at e in let it : m ≡ n = cc in rw (← it) ordered.0
  | inr other ↦ get_child-IsOrdered cs ch n ordered.1 (rw other at e)
]
