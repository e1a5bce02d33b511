-- ===== src/IndexFile/Writer/Nodes.antt =====
-- index_write__node on a whole tree.
use comment_subs.Prelude.{
  ℕ, zero, suc, ◌+◌, ◌-◌, ◌<◌, ◌≡◌, refl, ap, none, some, List, [], ◌∷◌, ◌==◌, ltb, length, get_or,
  Bytes, arith, u32_mod, Bool-cases, inl, inr,
}
use comment_subs.Trie.{Value, Node, node, Children, null, child, get_child, childmax}
use comment_subs.Trie.Shape.{IsText, IsAscii, NodeFits, ChildrenFit, get_child-fits}
use comment_subs.IndexFile.Format.{masked}
use comment_subs.IndexFile.Write.{
  flagged, child_count, write_record, write_loop, index_write_node, write_child,
}
use comment_subs.IndexFile.Codec.{OffsetsFit, AllWords}
use comment_subs.IndexFile.Stored.{Stored, stored, Reads}
use comment_subs.IndexFile.Writer.Growth.{Extends, both, mono_ext, none_ext, length_pos}
use comment_subs.IndexFile.Writer.Record.{write_record-Extends}

-- What is known of the offset that was written for the child at `ch`.
record ChildAt (cs : Children) (ch off : ℕ) (file : Bytes) : Type 0 where
  word : off < u32_mod
  there : (c : Node) → get_child cs ch ≡ some c → Stored file off c
  absent : get_child cs ch ≡ none → masked off ≡ 0

shift_all :
    (Q : ℕ → ℕ → Type 0) (ch o : ℕ) (os : List ℕ) (n : ℕ)
    → Q ch o
    → ((j : ℕ) → j < n → Q (ch + 1 + j) (get_or os j 0))
    → (j : ℕ) → j < suc n
    → Q (ch + j) (get_or (o ∷ os) j 0)
shift_all Q ch o os n q qs zero h = let e : ch + 0 ≡ ch = omega arith in rw e q
shift_all Q ch o os n q qs (suc j) h =
    let e : ch + suc j ≡ ch + 1 + j = omega arith in rw e (qs j (omega arith))

module _ (write : ℕ → Bytes → Bytes × ℕ) (Q : ℕ → ℕ → Bytes → Type 0)
    (step : (ch : ℕ) (out : Bytes)
      → 0 < length out
      → Extends (Q ch (write ch out).1) out (write ch out).0) where
  length-write_loop : (n ch : ℕ) (out : Bytes) → length (write_loop write n ch out).1 ≡ n
  unfolding write_loop
  length-write_loop zero ch out = refl
  length-write_loop (suc n) ch out = ap suc (length-write_loop n (ch + 1) (write ch out).0)

  write_loop-Extends :
      (n ch : ℕ) (out : Bytes)
      → 0 < length out
      → Extends
          (λ file. (j : ℕ) → j < n → Q (ch + j) (get_or (write_loop write n ch out).1 j 0) file)
          out
          (write_loop write n ch out).0
  unfolding write_loop
  write_loop-Extends zero ch out h = none_ext out (λ file j below. elim below [ ])
  write_loop-Extends (suc n) ch out h =
      let here = step ch out h in
      let further = write_loop-Extends n (ch + 1) (write ch out).0 (length_pos here h) in
      mono_ext
        (λ file small known. shift_all (λ c o. Q c o file) ch (write ch out).1 _ n known.0 known.1)
        (both here further)

AllWords_lem : (os : List ℕ) → ((j : ℕ) → j < length os → get_or os j 0 < u32_mod) → AllWords os
AllWords_lem [] h = tt
AllWords_lem (o ∷ os) h = (h 0 (omega arith), AllWords_lem os (λ j below. h (suc j) (omega arith)))

offsets_fit :
    (first last : ℕ) (offs : List ℕ)
    → length offs ≡ child_count first last
    → last < childmax
    → ((j : ℕ) → j < length offs → get_or offs j 0 < u32_mod)
    → OffsetsFit first last offs
offsets_fit first last [] e h words = tt
offsets_fit first last (o ∷ os) e h words =
    (ground arith, h, ground arith, AllWords_lem (o ∷ os) words)

IsAscii-IsText : (t : Bytes) → IsAscii t → IsText t
IsAscii-IsText [] h = tt
IsAscii-IsText (c ∷ t) h = (h.0, IsAscii-IsText t h.2)

pub word_node : (n : Node) (out : Bytes) → (index_write_node n out).1 < u32_mod
unfolding index_write_node write_record flagged
word_node (node prefix vs first last cs) out = omega arith

get_or_empty : (os : List ℕ) (j : ℕ) → length os ≡ 0 → get_or os j 0 ≡ 0
get_or_empty [] j h = refl
get_or_empty (o ∷ os) j h = absurd (omega arith)

-- The offsets of the loop make the node that was written behind them a stored one.
assemble :
    (file prefix : Bytes) (vs : List Value) (first last : ℕ) (cs : Children) (offs : List ℕ)
    (off : ℕ)
    → NodeFits (node prefix vs first last cs)
    → length offs ≡ child_count first last
    → ((j : ℕ) → j < child_count first last → ChildAt cs (first + j) (get_or offs j 0) file)
    → (OffsetsFit first last offs → Reads file off prefix vs first last offs)
    → Stored file off (node prefix vs first last cs)
unfolding NodeFits
assemble file prefix vs first last cs offs off fits size kids read =
    stored offs
      (read (
        offsets_fit first last offs size fits.2
          (λ j below. ChildAt.word (kids j (rw (← size) below)))))
      size
      (λ ch c e.
        let known = get_child-fits cs ch fits.3 e in
        let at : first + (ch - first) ≡ ch = omega arith in
        let kid = kids (ch - first) (ground arith) in ChildAt.there kid c (rw at e))
      (λ ch e lo hi.
        let at : first + (ch - first) ≡ ch = omega arith in
        elim (Bool-cases (ltb first childmax)) [
          | inl some_child ↦
              ChildAt.absent (kids (ch - first) (rw some_child (omega arith))) (rw at e)
          | inr no_child ↦
              let nothing : length offs ≡ 0 = rw no_child at size in
              rw (get_or_empty offs (ch - first) nothing)
        ])

mutual
  unfolding index_write_node write_child write_record write_loop NodeFits ChildrenFit get_child

  pub node-Extends :
      (n : Node) (out : Bytes)
      → NodeFits n
      → 0 < length out
      → Extends (λ file. Stored file (index_write_node n out).1 n) out (index_write_node n out).0
  node-Extends (node prefix vs first last cs) out fits h =
      let loop =
        write_loop-Extends (write_child cs) (λ ch off file. ChildAt cs ch off file)
          (λ ch out' h'. child-Extends cs first last ch out' fits.3 h') (child_count first last)
          first out h in
      let (mid, offs) = write_loop (write_child cs) (child_count first last) first out in
      let here =
        write_record-Extends prefix vs first last offs mid (IsAscii-IsText prefix fits.0) fits.1
          (length_pos loop h) in
      mono_ext
        (λ file small known.
          assemble file prefix vs first last cs offs _ fits
            (length-write_loop (write_child cs) (λ ch off file. ChildAt cs ch off file)
              (λ ch out' h'. child-Extends cs first last ch out' fits.3 h') (child_count first last)
              first out)
            known.0 known.1)
        (both loop here)

  child-Extends :
      (cs : Children) (first last ch : ℕ) (out : Bytes)
      → ChildrenFit first last cs
      → 0 < length out
      → Extends (ChildAt cs ch (write_child cs ch out).1) out (write_child cs ch out).0
  child-Extends null first last ch out fits h =
      none_ext out (λ file. record { word = omega arith; there = λ c e. cc; absent = λ e. refl })
  child-Extends (child k n others) first last ch out fits h = elim (Bool-cases (k == ch)) [
    | inl same ↦ rw same (
        mono_ext
          (λ file small st. record {
            word = word_node n out;
            there = λ c e.
                let e' : some n ≡ some c = rw same at e in let it : n ≡ c = cc in rw (← it) st;
            absent = λ e. let e' : some n ≡ none = rw same at e in cc;
          })
          (node-Extends n out fits.3 h))
    | inr other ↦ rw other (
        mono_ext
          (λ file small at. record {
            word = at.word;
            there = λ c e. at.there c (rw other at e);
            absent = λ e. at.absent (rw other at e);
          })
          (child-Extends others first last ch out fits.4 h))
  ]
