-- ===== src/AliasesBin/Contents.antt =====
-- The tree that the loops build has, at each alias, the modules that declare it.
use comment_subs.Prelude.{
  ℕ, ◌+◌, ◌<◌, ◌≡◌, refl, ap, ◌∙◌, Bool, true, false, Option, none, some, List, [], ◌∷◌,
  if◌then◌else◌, Bytes, streq, length, arith, Bool-cases, inl, inr, if_both, ◌==◌, eq_of_streq,
}
use comment_subs.Names.{underscores2}
use comment_subs.Names.Alias.{translate, copied, prepend}
use comment_subs.Names.Underscores.{underscores2_loop-translate}
use comment_subs.Trie.{Value, Node, place_value}
use comment_subs.Trie.Denote.{values_at, Adds}
use comment_subs.Trie.Shape.{IsAscii, NodeFits, ValueFits}
use comment_subs.Trie.Insert.{index_insert-Inserted}
use comment_subs.AliasesBin.Defs.{
  Mod, alias_key, buf_size, insert_alias, insert_infos, insert_modules,
}

-- The value that a module has in the index.
abbrev pub mod_value : Mod → Value
mod_value m = record { priority = m.idx; value = m.modname }

-- The values at `key` after an alias of the module was added to the values `vs`.
abbrev pub with_alias : Bytes → Mod → Option Bytes → List Value → List Value
with_alias key m none vs = vs
with_alias key m (some alias) vs = if streq alias key then place_value vs (mod_value m) else vs

unfoldable pub with_infos : Bytes → Mod → List (Bytes × Bytes) → List Value → List Value
with_infos key m [] vs = vs
with_infos key m ((k, value) ∷ infos) vs =
    with_infos key m infos
      (if streq k alias_key then with_alias key m (translate false value) vs else vs)

-- The modules that declare `key` as an alias, as the index orders them.
unfoldable pub with_modules : Bytes → List Mod → List Value → List Value
with_modules key [] vs = vs
with_modules key (m ∷ modules) vs = with_modules key modules (with_infos key m m.info_list vs)

-- The aliases are ASCII and fit the buffer of output_aliases_bin.
abbrev pub InfosFit : List (Bytes × Bytes) → Type 0
InfosFit [] = Unit
InfosFit ((k, value) ∷ infos) = IsAscii value × (length value < buf_size) × InfosFit infos

abbrev pub ModulesFit : List Mod → Type 0
ModulesFit [] = Unit
ModulesFit (m ∷ modules) = ValueFits (mod_value m) × InfosFit m.info_list × ModulesFit modules

abbrev AsciiCopy : Option Bytes → Type 0
AsciiCopy none = Unit
AsciiCopy (some t) = IsAscii t

prepend-ascii : (c : ℕ) (o : Option Bytes) → 0 < c → c < 128 → AsciiCopy o → AsciiCopy (prepend c o)
prepend-ascii c none h k a = tt
prepend-ascii c (some t) h k a = (h, k, a)

translate-ascii : (inside : Bool) (s : Bytes) → IsAscii s → AsciiCopy (translate inside s)
unfolding translate
translate-ascii false [] h = tt
translate-ascii true [] h = tt
translate-ascii false (c ∷ s) h =
    let outer = translate-ascii false s h.2 in
    let inner = translate-ascii true s h.2 in
    if_both AsciiCopy (c == b'-')
      (prepend-ascii b'_' (translate false s) (omega arith) (omega arith) outer)
      (if_both AsciiCopy (c == b']') tt (
        if_both AsciiCopy (c == b'[') (prepend-ascii c (translate true s) h.0 h.1 inner)
          (prepend-ascii c (translate false s) h.0 h.1 outer)))
translate-ascii true (c ∷ s) h =
    if_both AsciiCopy (c == b']')
      (prepend-ascii c (translate false s) h.0 h.1 (translate-ascii false s h.2))
      (prepend-ascii c (translate true s) h.0 h.1 (translate-ascii true s h.2))

-- The value that is placed is placed at the key that is read.
at_key :
    (old new : Bytes → List Value) (alias : Bytes) (v : Value)
    → Adds old alias v new
    → (key : Bytes) → new key ≡ (if streq alias key then place_value (old key) v else old key)
at_key old new alias v h key = elim (Bool-cases (streq alias key)) [
  | inr other ↦ rw (h key, other)
  | inl same ↦ rw (h key, same) (ap (λ k. place_value (old k) v) (eq_of_streq alias key same))
]

module _ (idx : Node) (m : Mod) (fits : NodeFits idx) (m_fits : ValueFits (mod_value m)) where
  insert_alias-values :
      (o : Option Bytes)
      → AsciiCopy o
      → (idx' : Node) × (insert_alias idx m (copied o) ≡ some idx')
        × NodeFits idx'
        × ((key : Bytes) → values_at idx' key ≡ with_alias key m o (values_at idx key))
  unfolding insert_alias
  insert_alias-values none ascii = (idx, refl, fits, λ key. refl)
  insert_alias-values (some alias) ascii =
      let (r, run, added) =
        index_insert-Inserted (length alias + 1) idx alias (mod_value m) (omega arith) fits ascii
          m_fits in
      (
        r.0,
        rw run,
        added.fits,
        λ key. at_key (values_at idx) (values_at r.0) alias (mod_value m) added.adds key,
      )

insert_infos-values :
    (m : Mod) (infos : List (Bytes × Bytes)) (idx : Node)
    → NodeFits idx
    → ValueFits (mod_value m)
    → InfosFit infos
    → (idx' : Node) × (insert_infos idx m infos ≡ some idx')
      × NodeFits idx'
      × ((key : Bytes) → values_at idx' key ≡ with_infos key m infos (values_at idx key))
unfolding insert_infos with_infos underscores2
insert_infos-values m [] idx fits m_fits h = (idx, refl, fits, λ key. refl)
insert_infos-values m ((k, value) ∷ infos) idx fits m_fits h =
    elim (Bool-cases (streq k alias_key)) [
      | inr other ↦
          let (idx', run, kept, at) = insert_infos-values m infos idx fits m_fits h.2 in
          (idx', rw other run, kept, λ key. rw other (at key))
      | inl same ↦
          let (idx1, run1, kept1, at1) =
            insert_alias-values idx m fits m_fits (translate false value)
              (translate-ascii false value h.0) in
          let (idx', run, kept, at) = insert_infos-values m infos idx1 kept1 m_fits h.2 in
          (
            idx',
            rw (same, underscores2_loop-translate false buf_size value h.1, run1) run,
            kept,
            λ key. rw same (at key ∙ ap (with_infos key m infos) (at1 key)),
          )
    ]

pub insert_modules-values :
    (modules : List Mod) (idx : Node)
    → NodeFits idx
    → ModulesFit modules
    → (idx' : Node) × (insert_modules idx modules ≡ some idx')
      × NodeFits idx'
      × ((key : Bytes) → values_at idx' key ≡ with_modules key modules (values_at idx key))
unfolding insert_modules with_modules
insert_modules-values [] idx fits h = (idx, refl, fits, λ key. refl)
insert_modules-values (m ∷ modules) idx fits h =
    let (idx1, run1, kept1, at1) = insert_infos-values m m.info_list idx fits h.0 h.1 in
    let (idx', run, kept, at) = insert_modules-values modules idx1 kept1 h.2 in
    (idx', rw run1 run, kept, λ key. at key ∙ ap (with_modules key modules) (at1 key))
