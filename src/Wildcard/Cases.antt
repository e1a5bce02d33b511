-- ===== src/Wildcard/Cases.antt =====
-- The keys below a node that match: those behind a wildcard, the one that ends here, and those
-- behind the next character.
use mathlib.Core.List.{Memᴰ}
use mathlib.Core.List.Memᴰ
use mathlib.Core.Path.{subst}
use comment_subs.Prelude.{
  ℕ, ◌≡◌, refl, sym, ap, ◌∙◌, ◌↔◌, ◌⊎◌, inl, inr, none, some, List, [], ◌∷◌, true, false, Bytes,
  arith, Option-cases, Bool-cases, ◌==◌,
}
use comment_subs.Trie.{Value, Node, Children, get_child}
use comment_subs.Trie.Denote.{values_at, values_below, values_below-child}
use comment_subs.Wildcard.Defs.{is_wild}
use comment_subs.Wildcard.Matches.{key_matches}

module _ (fnmatch : Bytes → Bytes → ℕ) (vs : List Value) (cs : Children) where
  abbrev pub WildAt : (subkey : Bytes) → ℕ → Value → Type 0
  WildAt subkey ch v =
      (c : Node) × (get_child cs ch ≡ some c)
      × ((k : Bytes) × (fnmatch (ch ∷ k) subkey ≡ 0) × Memᴰ v (values_at c k))

  abbrev pub WildAny : (subkey : Bytes) → Value → Type 0
  WildAny subkey v = WildAt subkey 42 v ⊎ (WildAt subkey 63 v ⊎ WildAt subkey 91 v)

  -- The value stands at a key that matches what is left of the key.
  abbrev pub MatchingBelow : (rest : Bytes) → Value → Type 0
  MatchingBelow rest v =
      (k : Bytes) × (key_matches fnmatch k rest ≡ true) × Memᴰ v (values_below [] vs cs k)

  wild_cases : (ch : ℕ) → is_wild ch ≡ true → (ch ≡ 42) ⊎ ((ch ≡ 63) ⊎ (ch ≡ 91))
  unfolding is_wild
  wild_cases ch wild = ground arith

  matches_wild :
      (ch : ℕ) (k subkey : Bytes)
      → is_wild ch ≡ true
      → key_matches fnmatch (ch ∷ k) subkey ≡ (fnmatch (ch ∷ k) subkey == 0)
  unfolding key_matches
  matches_wild ch k [] wild = rw wild refl
  matches_wild ch k (c ∷ key) wild = rw wild refl

  below_child :
      (ch : ℕ) (k : Bytes) (c : Node) (v : Value)
      → get_child cs ch ≡ some c
      → Memᴰ v (values_below [] vs cs (ch ∷ k)) ↔ Memᴰ v (values_at c k)
  below_child ch k c v e = (
    λ m. subst (λ l. Memᴰ v l) (values_below-child vs cs ch k (some c) e) m,
    λ m. subst (λ l. Memᴰ v l) (sym (values_below-child vs cs ch k (some c) e)) m,
  )

  -- A value below a character stands in the child there.
  has_child :
      (ch : ℕ) (k : Bytes) (v : Value)
      → Memᴰ v (values_below [] vs cs (ch ∷ k))
      → (c : Node) × (get_child cs ch ≡ some c) × Memᴰ v (values_at c k)
  has_child ch k v m = elim (Option-cases (get_child cs ch)) [
    | inl e ↦ absurd (Memᴰ.not-nil (subst (λ l. Memᴰ v l) (values_below-child vs cs ch k none e) m))
    | inr (c, e) ↦ (c, e, (below_child ch k c v e).0 m)
  ]

  from_wild :
      (subkey : Bytes) (ch : ℕ) (v : Value)
      → is_wild ch ≡ true
      → WildAt subkey ch v
      → MatchingBelow subkey v
  from_wild subkey ch v wild (c, e, (k, hit, at)) = (
    ch ∷ k,
    rw (matches_wild ch k subkey wild) (ground (arith, hit)),
    (below_child ch k c v e).1 at,
  )

  pub from_any : (subkey : Bytes) (v : Value) → WildAny subkey v → MatchingBelow subkey v
  unfolding is_wild
  from_any subkey v m = elim m [
    | inl a ↦ from_wild subkey 42 v refl a
    | inr m1 ↦ elim m1 [
      | inl a ↦ from_wild subkey 63 v refl a
      | inr a ↦ from_wild subkey 91 v refl a
    ]
  ]

  to_any :
      (subkey : Bytes) (ch : ℕ) (k : Bytes) (v : Value)
      → is_wild ch ≡ true
      → key_matches fnmatch (ch ∷ k) subkey ≡ true
      → Memᴰ v (values_below [] vs cs (ch ∷ k))
      → WildAny subkey v
  to_any subkey ch k v wild hit m =
      let (c, e, at) = has_child ch k v m in
      let zero_is : fnmatch (ch ∷ k) subkey ≡ 0 =
        ground (arith, hit, matches_wild ch k subkey wild) in
      let here : WildAt subkey ch v = (c, e, (k, zero_is, at)) in
      elim (wild_cases ch wild) [
        | inl is ↦ inl (subst (λ x. WildAt subkey x v) is here)
        | inr other ↦ elim other [
          | inl is ↦ inr (inl (subst (λ x. WildAt subkey x v) is here))
          | inr is ↦ inr (inr (subst (λ x. WildAt subkey x v) is here))
        ]
      ]

  pub at_end : (v : Value) → (WildAny [] v ⊎ Memᴰ v vs) ↔ MatchingBelow [] v
  unfolding key_matches values_below
  at_end v = (
    λ m. elim m [ inl a ↦ from_any [] v a | inr here ↦ ([], refl, here) ],
    λ (k, hit, m). from_key k hit m,
  )
    where
      from_key :
          (k : Bytes)
          → key_matches fnmatch k [] ≡ true
          → Memᴰ v (values_below [] vs cs k)
          → WildAny [] v ⊎ Memᴰ v vs
      from_key [] hit m = inr m
      from_key (ch ∷ k) hit m =
          let wild : is_wild ch ≡ true = ground (arith, hit) in inl (to_any [] ch k v wild hit m)

  -- What is below the child at the next character of the key.
  abbrev pub NextAt : (c : ℕ) (key : Bytes) → Value → Type 0
  NextAt c key v =
      (m : Node) × (get_child cs c ≡ some m)
      × ((k : Bytes) × (key_matches fnmatch k key ≡ true) × Memᴰ v (values_at m k))

  pub at_char :
      (c : ℕ) (key : Bytes) (v : Value)
      → is_wild c ≡ false
      → (WildAny (c ∷ key) v ⊎ NextAt c key v) ↔ MatchingBelow (c ∷ key) v
  unfolding key_matches
  at_char c key v plain = (
    λ m. elim m [
      | inl a ↦ from_any (c ∷ key) v a
      | inr (n, e, (k, hit, at)) ↦
          let self : (c == c) ≡ true = ground arith in
          (c ∷ k, rw (plain, self) hit, (below_child c k n v e).1 at)
    ],
    λ (k, hit, m). from_key k hit m,
  )
    where
      from_key :
          (k : Bytes)
          → key_matches fnmatch k (c ∷ key) ≡ true
          → Memᴰ v (values_below [] vs cs k)
          → WildAny (c ∷ key) v ⊎ NextAt c key v
      from_key [] hit m = absurd (ground (arith, hit))
      from_key (ch ∷ k) hit m = elim (Bool-cases (is_wild ch)) [
        | inl wild ↦ inl (to_any (c ∷ key) ch k v wild hit m)
        | inr literal ↦
            let same : ch ≡ c = ground (arith, hit, literal) in
            let rest : key_matches fnmatch k key ≡ true = ground (arith, hit, literal) in
            let (n, e, at) = has_child ch k v m in
            inr (n, ap (get_child cs) (sym same) ∙ e, (k, rest, at))
      ]
