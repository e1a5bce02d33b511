-- ===== src/Trie/Defs.antt =====
-- The nodes of the tree and the functions that create and fill it. The array `children` is the list
-- of its pointers that are not NULL, with their indices. The warnings of index__checkstring go to
-- the log and are left out.
use comment_subs.Prelude.{
  ℕ, zero, suc, Bool, false, ◌||◌, Option, none, some, List, [], ◌∷◌, if◌then◌else◌, ltb, ◌==◌,
  ◌>>=◌, Bytes, streq,
}

-- `struct index_value`
pub record Value : Type 0 where
  pub priority : ℕ
  pub value : Bytes

-- `struct index_node`
mutual
  pub data Node : Type 0 where
    node : (prefix : Bytes) (values : List Value) (first last : ℕ) (children : Children) → Node

  pub data Children : Type 0 where
    null : Children
    child : (ch : ℕ) (n : Node) (others : Children) → Children

abbrev pub childmax : ℕ
childmax = 128

abbrev pub prefix_of : Node → Bytes
prefix_of (node prefix values first last children) = prefix

-- `node->children[ch]`
unfoldable pub get_child : Children → ℕ → Option Node
get_child null ch = none
get_child (child k n others) ch = if k == ch then some n else get_child others ch

-- `node->children[ch] = n`
unfoldable pub set_child : Children → ℕ → Node → Children
set_child null ch n = child ch n null
set_child (child k m others) ch n =
    if k == ch then child k n others else child k m (set_child others ch n)

unfoldable pub index_create : Node
index_create = node [] [] childmax 0 null

-- `duplicate`
unfoldable pub is_duplicate : List Value → Bytes → Bool
is_duplicate [] value = false
is_duplicate (v ∷ vs) value = streq v.value value || is_duplicate vs value

-- The value goes before the first one whose priority is not lower.
unfoldable pub place_value : List Value → Value → List Value
place_value [] v = v ∷ []
place_value (w ∷ ws) v = if ltb w.priority v.priority then w ∷ place_value ws v else v ∷ w ∷ ws

unfoldable pub index_add_value : List Value → Value → List Value × Bool
index_add_value values v = (place_value values v, is_duplicate values v.value)

-- The loop over `node->prefix` at the end of its run: what key and prefix have in common, what is
-- left of the prefix, which is empty unless the loop met a mismatch, and what is left of the key.
pub record Match : Type 0 where
  pub common : Bytes
  pub left : Bytes
  pub rest : Bytes

unfoldable pub match_prefix : Bytes → Bytes → Match
match_prefix [] key = record { common = []; left = []; rest = key }
match_prefix (p ∷ ps) [] = record { common = []; left = p ∷ ps; rest = [] }
match_prefix (p ∷ ps) (k ∷ ks) =
    let m = match_prefix ps ks in
    if p == k
    then record m { common = p ∷ m.common }
    else record { common = []; left = p ∷ ps; rest = k ∷ ks }

-- The body of `if (ch != key[i+j])`: the node moves below a new parent. An index outside of the
-- array of the children is a fault.
unfoldable pub split_node : Node → (common left : Bytes) → Option Node
split_node n common [] = some n
split_node (node prefix values first last children) common (ch ∷ left) =
    if ltb ch childmax
    then some (node common [] ch ch (child ch (node left values first last children) null))
    else none

-- What follows the loop over the prefix, with the rest of the key and with the further rounds of
-- the outer loop as an argument.
unfoldable pub insert_rest :
    (Node → Bytes → Option (Node × Bool)) → Node → Bytes → Value → Option (Node × Bool)
insert_rest descend (node prefix values first last children) [] v =
    let (values', duplicate) = index_add_value values v in
    some (node prefix values' first last children, duplicate)
insert_rest descend (node prefix values first last children) (ch ∷ key) v =
    if ltb ch childmax
    then elim (get_child children ch) [
      | none ↦ some (
        node prefix values (if ltb ch first then ch else first) (if ltb last ch then ch else last)
            (set_child children ch (node key (index_add_value [] v).0 childmax 0 null)),
        false,
      )
      | some n ↦ descend n key >>= λ (n', duplicate).
          some (node prefix values first last (set_child children ch n'), duplicate)
    ]
    else none

-- `none` is a fault, or that the fuel ran out.
unfoldable pub index_insert : ℕ → Node → Bytes → Value → Option (Node × Bool)
index_insert zero n key v = none
index_insert (suc fuel) n key v =
    let m = match_prefix (prefix_of n) key in
    split_node n m.common m.left >>= λ n'.
    insert_rest (λ c rest. index_insert fuel c rest v) n' m.rest v
