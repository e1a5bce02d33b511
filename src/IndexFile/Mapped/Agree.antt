-- ===== src/IndexFile/Mapped/Agree.antt =====
-- The two readers of libkmod agree.
use comment_subs.Prelude.{
  ℕ, ◌<◌, ◌≤◌, ◌+◌, false, ◌≡◌, refl, ap, sym, ◌∙◌, none, some, List, [], ◌∷◌, ◌++◌, append-nil,
  append_assoc, ltb, lt→ltb, if◌then◌else◌, length, Bytes, ◌>>=◌, arith, Bool-cases, inl, inr,
}
use comment_subs.Trie.{Value, Node}
use comment_subs.Trie.Denote.{values_at}
use comment_subs.Trie.Shape.{NodeFits}
use comment_subs.IndexFile.Format.{read_long}
use comment_subs.IndexFile.Mapped.Codec.{read_long_mm-read_long}
use comment_subs.IndexFile.Read.{index_search, index_file_open, add_value, first_value}
use comment_subs.IndexFile.Codec.{add_values}
use comment_subs.IndexFile.Lookup.{index_search-answer}
use comment_subs.IndexFile.Stored.{Stored}
use comment_subs.IndexFile.Mapped.{index_mm_search, index_mm_open}
use comment_subs.IndexFile.Mapped.Lookup.{index_mm_search-first_value}

abbrev pub AllBelow : List Value → ℕ → Type 0
AllBelow [] p = Unit
AllBelow (v ∷ vs) p = (v.priority < p) × AllBelow vs p

-- Each priority is above the ones before it.
abbrev pub Ascending : (before after : List Value) → Type 0
Ascending before [] = Unit
Ascending before (v ∷ vs) = AllBelow before v.priority × Ascending (before ++ v ∷ []) vs

add_value-last :
    (ws : List Value) (v : Value) → AllBelow ws v.priority → add_value ws v ≡ ws ++ v ∷ []
unfolding add_value
add_value-last [] v below = refl
add_value-last (w ∷ ws) v below =
    rw (lt→ltb w.priority v.priority below.0, add_value-last ws v below.1)

pub add_values-Ascending : (vs ws : List Value) → Ascending ws vs → add_values vs ws ≡ ws ++ vs
unfolding add_values
add_values-Ascending [] ws asc = sym (append-nil ws)
add_values-Ascending (v ∷ vs) ws asc =
    rw (add_value-last ws v asc.0)
      (add_values-Ascending vs (ws ++ v ∷ []) asc.1 ∙ append_assoc ws (v ∷ []) vs)

-- In a file that holds a well-formed tree, at a key whose values have strictly ascending
-- priorities: index_mm_search and index_search give the same result.
pub index_mm_search-index_search :
    (file : Bytes) (root : ℕ) (n : Node) (key : Bytes)
    → Stored file root n
    → NodeFits n
    → Ascending [] (values_at n key)
    → index_mm_search file root key ≡ index_search file root key
index_mm_search-index_search file root n key st fits asc =
    index_mm_search-first_value file root n key st fits
    ∙ ap (λ vs. some (first_value vs)) (sym (add_values-Ascending (values_at n key) [] asc))
    ∙ sym (index_search-answer file root n key st fits)

-- A word that is there is read.
word_there :
    (n : ℕ) (p : Bytes)
    → n + 4 ≤ length p
    → (r : ℕ × Bytes) × (read_long p ≡ some r) × (n ≤ length r.1)
unfolding read_long
word_there n [] h = absurd (omega arith)
word_there n (a ∷ []) h = absurd (omega arith)
word_there n (a ∷ b ∷ []) h = absurd (omega arith)
word_there n (a ∷ b ∷ c ∷ []) h = absurd (omega arith)
word_there n (a ∷ b ∷ c ∷ d ∷ p) h = (_, refl, omega arith)

header_read :
    (file : Bytes) (magic version root : ℕ × Bytes)
    → read_long file ≡ some magic
    → read_long magic.1 ≡ some version
    → read_long version.1 ≡ some root
    → ltb (length file) 12 ≡ false
    → index_mm_open file ≡ index_file_open file
unfolding index_mm_open index_file_open
header_read file magic version root e e1 e2 long = rw (
  long, read_long_mm-read_long, e, ◌>>=◌, read_long_mm-read_long, e1, ◌>>=◌, read_long_mm-read_long,
  e2, ◌>>=◌,
)

-- For every file index_mm_open gives what index_file_open gives, the offset of the root or NULL,
-- but for a file that is shorter than its header, for which it gives NULL.
pub index_mm_open-index_file_open :
    (file : Bytes)
    → index_mm_open file ≡ (if ltb (length file) 12 then some none else index_file_open file)
unfolding index_mm_open
index_mm_open-index_file_open file = elim (Bool-cases (ltb (length file) 12)) [
  | inl short ↦ rw short refl
  | inr long ↦
      let enough : 8 + 4 ≤ length file = ground (arith, long) in
      let (magic, e, more) = word_there 8 file enough in
      let (version, e1, further) = word_there 4 magic.1 more in
      let (root, e2, rest) = word_there 0 version.1 further in
      header_read file magic version root e e1 e2 long ∙ rw long refl
]
