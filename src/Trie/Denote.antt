-- ===== src/Trie/Denote.antt =====
-- What a tree stands for: the values at each key.
use comment_subs.Prelude.{
  ℕ, ◌≡◌, refl, Option, none, some, List, [], ◌∷◌, ◌++◌, if◌then◌else◌, ◌==◌, Bytes, streq, arith,
  streq-cons, streq-cons_nil, streq-nil_cons, streq_refl,
}
use comment_subs.Trie.Defs.{
  Value, Node, node, Children, null, child, get_child, set_child, place_value,
}

-- The values at `key` below a point that has `left` of its prefix to go.
unfoldable pub values_below : (left : Bytes) → List Value → Children → (key : Bytes) → List Value
values_below [] values children [] = values
values_below [] values children (ch ∷ key) = elim (get_child children ch) [
  | none ↦ []
  | some (node prefix values' first last children') ↦ values_below prefix values' children' key
]
values_below (p ∷ ps) values children [] = []
values_below (p ∷ ps) values children (ch ∷ key) =
    let below = values_below ps values children key in if p == ch then below else []

unfoldable pub values_at : Node → Bytes → List Value
unfolding values_below
values_at (node prefix values first last children) key = values_below prefix values children key

-- `new` is `old` with one more value, at `key`.
abbrev pub Adds : (Bytes → List Value) → Bytes → Value → (Bytes → List Value) → Type 0
Adds old key v new = (k : Bytes) → new k ≡ (if streq key k then place_value (old key) v else old k)

pub get_child-set_child :
    (cs : Children) (i j : ℕ) (n : Node)
    → get_child (set_child cs i n) j ≡ (if i == j then some n else get_child cs j)
unfolding get_child set_child
get_child-set_child null i j n = refl
get_child-set_child (child k m cs) i j n = ground (arith, get_child-set_child cs i j n)

-- An update below the common part of the prefix is an update at the whole key.
pub Adds-prefix :
    (common key : Bytes) (v : Value) (vs vs' : List Value) (cs cs' : Children)
    → Adds (values_below [] vs cs) key v (values_below [] vs' cs')
    → Adds (values_below common vs cs) (common ++ key) v (values_below common vs' cs')
unfolding values_below
Adds-prefix [] key v vs vs' cs cs' h k = h k
Adds-prefix (p ∷ ps) key v vs vs' cs cs' h [] = rw streq-cons_nil
Adds-prefix (p ∷ ps) key v vs vs' cs cs' h (c ∷ k) =
    ground (arith, streq-cons p c (ps ++ key) k, Adds-prefix ps key v vs vs' cs cs' h k)

-- What is below a child, or below none.
abbrev pub child_values : Option Node → Bytes → List Value
child_values none key = []
child_values (some n) key = values_at n key

pub values_below-child :
    (vs : List Value) (cs : Children) (ch : ℕ) (key : Bytes) (o : Option Node)
    → get_child cs ch ≡ o
    → values_below [] vs cs (ch ∷ key) ≡ child_values o key
unfolding values_below values_at
values_below-child vs cs ch key none e = rw (values_below, e)
values_below-child vs cs ch key (some (node prefix values first last children)) e =
    rw (values_below, e)

-- A leaf has its one value at the rest of its key.
pub values_below-leaf :
    (key : Bytes) (v : Value) (k : Bytes)
    → values_below key (v ∷ []) null k ≡ (if streq key k then v ∷ [] else [])
unfolding values_below get_child
values_below-leaf [] v [] = rw streq_refl
values_below-leaf [] v (c ∷ k) = rw streq-nil_cons
values_below-leaf (p ∷ ps) v [] = rw streq-cons_nil
values_below-leaf (p ∷ ps) v (c ∷ k) = ground (arith, streq-cons p c ps k, values_below-leaf ps v k)

-- A change below one child, or a new child, is a change below the node.
pub Adds-child :
    (vs : List Value) (cs : Children) (ch : ℕ) (key : Bytes) (v : Value) (n : Node)
    → Adds (child_values (get_child cs ch)) key v (values_at n)
    → Adds (values_below [] vs cs) (ch ∷ key) v (values_below [] vs (set_child cs ch n))
unfolding values_below
Adds-child vs cs ch key v n h [] = rw (streq-cons_nil, values_below)
Adds-child vs cs ch key v n h (c ∷ k) = ground (
  arith,
  h k,
  streq-cons ch c key k,
  values_below-child vs cs ch key _ refl,
  values_below-child vs cs c k _ refl,
  values_below-child vs (set_child cs ch n) c k _ refl,
  get_child-set_child cs ch c n,
)

-- Behind a prefix that the key begins with, the rest of the key decides.
pub values_below-append :
    (common k : Bytes) (vs : List Value) (cs : Children)
    → values_below common vs cs (common ++ k) ≡ values_below [] vs cs k
unfolding values_below
values_below-append [] k vs cs = refl
values_below-append (p ∷ ps) k vs cs = ground (arith, values_below-append ps k vs cs)

-- A value that is placed in the node itself.
pub Adds-here :
    (vs : List Value) (cs : Children) (v : Value)
    → Adds (values_below [] vs cs) [] v (values_below [] (place_value vs v) cs)
unfolding values_below
Adds-here vs cs v [] = rw streq_refl
Adds-here vs cs v (c ∷ k) = rw (streq-nil_cons, values_below)
