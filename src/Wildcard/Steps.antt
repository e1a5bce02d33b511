-- ===== src/Wildcard/Steps.antt =====
-- What a walk does: it ends, the list gains values, and the buffer has its characters again.
use comment_subs.Prelude.{
  ℕ, ◌≡◌, refl, sym, ap, ◌∙◌, ◌↔◌, ◌⊎◌, Option, some, List, [], ◌∷◌, ◌++◌, ◌>>=◌, bind_assoc, Bytes,
  length,
}
use comment_subs.Trie.{Value}
use comment_subs.IndexFile.{FileNode}
use comment_subs.Wildcard.KeyBuffer.{Buffer}
use comment_subs.Wildcard.Buffered.{IsBuffer, Short, buf_pushchar-IsBuffer, buf_popchar-IsBuffer}
use comment_subs.Wildcard.Defs.{Walk, in_child}
use comment_subs.Wildcard.Gains.{Gains, Gains-trans, Gains-map, Gains-none}

abbrev pub Did : Option Walk → List Value → Bytes → (Value → Type 0) → Type 0
Did m out s P = (r : Walk) × (m ≡ some r) × Gains out r.0 P × IsBuffer r.1 s

module _ {P Q : Value → Type 0} where
  pub Did-then :
      (m : Option Walk) (k : Walk → Option Walk) (out : List Value) (s t : Bytes)
      → Did m out s P
      → ((r : Walk) → IsBuffer r.1 s → Did (k r) r.0 t Q)
      → Did (m >>= k) out t (λ v. P v ⊎ Q v)
  Did-then m k out s t (r, e, gains, is) more =
      let (q, e1, gains1, is1) = more r is in
      (q, ap (λ x. x >>= k) e ∙ e1, Gains-trans out r.0 q.0 gains gains1, is1)

  pub Did-chain :
      {A : Type 0} (m : Option A) (f : A → Option Walk) (k : Walk → Option Walk) (out : List Value)
      (s t : Bytes)
      → Did (m >>= f) out s P
      → ((r : Walk) → IsBuffer r.1 s → Did (k r) r.0 t Q)
      → Did (m >>= λ a. f a >>= k) out t (λ v. P v ⊎ Q v)
  Did-chain m f k out s t first more =
      let (q, e, gains, is) = Did-then (m >>= f) k out s t first more in
      (q, sym (bind_assoc m f k) ∙ e, gains, is)

  pub Did-map :
      (m : Option Walk) (out : List Value) (s : Bytes)
      → Did m out s P
      → ((v : Value) → P v ↔ Q v)
      → Did m out s Q
  Did-map m out s (r, e, gains, is) same = (r, e, Gains-map out r.0 gains same, is)

pub Did-nothing :
    {P : Value → Type 0} (out : List Value) (b : Buffer) (s : Bytes)
    → IsBuffer b s
    → ((v : Value) → ¬ P v)
    → Did (some (out, b)) out s P
Did-nothing out b s is never = ((out, b), refl, Gains-none out never, is)

-- In a child the buffer has its character too.
pub Did-child :
    {P : Value → Type 0} (walk : FileNode → List Value → Buffer → Option Walk) (ch : ℕ)
    (c : FileNode) (out : List Value) (b : Buffer) (s : Bytes)
    → IsBuffer b s
    → Short (length s)
    → ((b1 : Buffer) → IsBuffer b1 (s ++ ch ∷ []) → Did (walk c out b1) out (s ++ ch ∷ []) P)
    → Did (in_child walk ch (some c) out b) out s P
unfolding in_child
Did-child walk ch c out b s is short inside =
    let (b1, pushed, has) = buf_pushchar-IsBuffer b s ch is short in
    let (r, e, gains, is1) = inside b1 has in
    let (b2, popped, is2) = buf_popchar-IsBuffer r.1 s ch is1 in
    ((r.0, b2), rw (pushed, ◌>>=◌, e, ◌>>=◌, popped), gains, is2)
