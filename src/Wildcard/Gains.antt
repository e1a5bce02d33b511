-- ===== src/Wildcard/Gains.antt =====
-- Lists of values that grow by the values with a property, in any order.
use mathlib.Core.List.{Memᴰ}
use mathlib.Core.List.Memᴰ
use comment_subs.Prelude.{◌≡◌, ◌↔◌, ◌⊎◌, inl, inr, List, [], ◌∷◌, ltb, Bool-cases}
use comment_subs.Trie.{Value}
use comment_subs.IndexFile.{add_value}
use comment_subs.IndexFile.Codec.{add_values}

-- `new` has the values of `old` and those with the property.
abbrev pub Gains : List Value → List Value → (Value → Type 0) → Type 0
Gains old new P = (v : Value) → Memᴰ v new ↔ (Memᴰ v old ⊎ P v)

module _ {P Q : Value → Type 0} where
  pub Gains-trans : (a b c : List Value) → Gains a b P → Gains b c Q → Gains a c (λ v. P v ⊎ Q v)
  Gains-trans a b c s t v = (
    λ m. elim ((t v).0 m) [
      | inl i ↦ elim ((s v).0 i) [ inl j ↦ inl j | inr p ↦ inr (inl p) ]
      | inr q ↦ inr (inr q)
    ],
    λ m. elim m [
      | inl i ↦ (t v).1 (inl ((s v).1 (inl i)))
      | inr e ↦ elim e [ inl p ↦ (t v).1 (inl ((s v).1 (inr p))) | inr q ↦ (t v).1 (inr q) ]
    ],
  )

  pub Gains-map : (a b : List Value) → Gains a b P → ((v : Value) → P v ↔ Q v) → Gains a b Q
  Gains-map a b s same v = (
    λ m. elim ((s v).0 m) [ inl i ↦ inl i | inr p ↦ inr ((same v).0 p) ],
    λ m. elim m [ inl i ↦ (s v).1 (inl i) | inr q ↦ (s v).1 (inr ((same v).1 q)) ],
  )

pub Gains-none : {P : Value → Type 0} (a : List Value) → ((v : Value) → ¬ P v) → Gains a a P
Gains-none a never v = (λ m. inl m, λ m. elim m [ inl i ↦ i | inr p ↦ absurd (never v p) ])

mem-add_value : (ws : List Value) (x : Value) → Gains ws (add_value ws x) (λ v. v ≡ x)
unfolding add_value
mem-add_value [] x v = (
  λ m. elim (Memᴰ.cases_cons m) [ inl e ↦ inr e | inr i ↦ inl i ],
  λ m. elim m [ inl i ↦ Memᴰ.tail i | inr e ↦ Memᴰ.head e ],
)
mem-add_value (w ∷ ws) x v = elim (Bool-cases (ltb w.priority x.priority)) [
  | inr here ↦ rw here (
    λ m. elim (Memᴰ.cases_cons m) [ inl e ↦ inr e | inr i ↦ inl i ],
    λ m. elim m [ inl i ↦ Memᴰ.tail i | inr e ↦ Memᴰ.head e ],
  )
  | inl lower ↦ rw lower (
    λ m. elim (Memᴰ.cases_cons m) [
      | inl e ↦ inl (Memᴰ.head e)
      | inr i ↦ elim ((mem-add_value ws x v).0 i) [ inl j ↦ inl (Memᴰ.tail j) | inr e ↦ inr e ]
    ],
    λ m. elim m [
      | inl i ↦ elim (Memᴰ.cases_cons i) [
        | inl e ↦ Memᴰ.head e
        | inr j ↦ Memᴰ.tail ((mem-add_value ws x v).1 (inl j))
      ]
      | inr e ↦ Memᴰ.tail ((mem-add_value ws x v).1 (inr e))
    ],
  )
]

pub mem-add_values : (vs ws : List Value) → Gains ws (add_values vs ws) (λ v. Memᴰ v vs)
unfolding add_values
mem-add_values [] ws = Gains-none ws (λ v m. Memᴰ.not-nil m)
mem-add_values (x ∷ vs) ws =
    Gains-map ws _
      (Gains-trans ws (add_value ws x) _ (mem-add_value ws x) (mem-add_values vs (add_value ws x)))
      (λ v. (λ m. elim m [ inl e ↦ Memᴰ.head e | inr i ↦ Memᴰ.tail i ], λ m. Memᴰ.cases_cons m))
