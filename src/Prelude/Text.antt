-- ===== src/Prelude/Text.antt =====
-- C strings: the bytes before the terminating NUL, and their comparisons.
use Prim.Native.Nat.{ℕ, compare, Ordering}
use mathlib.Core.Path.{◌≡◌, refl}
use mathlib.Core.Logic.{◌⊎◌, inl, inr}
use mathlib.Core.List.{List, [], ◌∷◌}
use mathlib.Core.Bool.{Bool, true, false, ◌&&◌}
use native.Mathlib.Omega.{arith}
use comment_subs.Prelude.Tests.{◌==◌}

abbrev pub Bytes : Type 0
Bytes = List ℕ

-- `strcmp`, on unsigned bytes
unfoldable pub strcmp : Bytes → Bytes → Ordering
strcmp [] [] = Ordering.eq
strcmp [] (y ∷ ys) = Ordering.lt
strcmp (x ∷ xs) [] = Ordering.gt
strcmp (x ∷ xs) (y ∷ ys) =
    let rest = strcmp xs ys in
    elim (compare x y) [
      | Ordering.lt ↦ Ordering.lt
      | Ordering.gt ↦ Ordering.gt
      | Ordering.eq ↦ rest
    ]

abbrev pub is_eq : Ordering → Bool
is_eq Ordering.eq = true
is_eq Ordering.lt = false
is_eq Ordering.gt = false

-- `streq`
unfoldable pub streq : Bytes → Bytes → Bool
streq xs ys = is_eq (strcmp xs ys)

pub strcmp_refl : (xs : Bytes) → strcmp xs xs ≡ Ordering.eq
unfolding strcmp
strcmp_refl [] = refl
strcmp_refl (x ∷ xs) = ground (arith, strcmp_refl xs)

pub eq_of_strcmp : (xs ys : Bytes) → strcmp xs ys ≡ Ordering.eq → xs ≡ ys
unfolding strcmp
eq_of_strcmp [] [] h = refl
eq_of_strcmp [] (y ∷ ys) h = cc
eq_of_strcmp (x ∷ xs) [] h = cc
eq_of_strcmp (x ∷ xs) (y ∷ ys) h = ground (arith, eq_of_strcmp xs ys)

-- The order of strings: what a negative result of `strcmp` says.
abbrev pub Below : Bytes → Bytes → Type 0
Below xs ys = strcmp xs ys ≡ Ordering.lt

pub strcmp_flip : (xs ys : Bytes) → strcmp xs ys ≡ Ordering.gt → Below ys xs
unfolding strcmp
strcmp_flip [] [] h = cc
strcmp_flip [] (y ∷ ys) h = cc
strcmp_flip (x ∷ xs) [] h = refl
strcmp_flip (x ∷ xs) (y ∷ ys) h = ground (arith, strcmp_flip xs ys)

pub strcmp-gt : (xs ys : Bytes) → Below ys xs → strcmp xs ys ≡ Ordering.gt
unfolding strcmp
strcmp-gt [] [] h = cc
strcmp-gt [] (y ∷ ys) h = cc
strcmp-gt (x ∷ xs) [] h = refl
strcmp-gt (x ∷ xs) (y ∷ ys) h = ground (arith, strcmp-gt xs ys)

pub Below-trans : (xs ys zs : Bytes) → Below xs ys → Below ys zs → Below xs zs
unfolding strcmp
Below-trans [] [] zs h k = k
Below-trans [] (y ∷ ys) [] h k = cc
Below-trans [] (y ∷ ys) (z ∷ zs) h k = refl
Below-trans (x ∷ xs) [] zs h k = cc
Below-trans (x ∷ xs) (y ∷ ys) [] h k = cc
Below-trans (x ∷ xs) (y ∷ ys) (z ∷ zs) h k = ground (arith, Below-trans xs ys zs)

pub Ordering-cases : (o : Ordering) → (o ≡ Ordering.lt) ⊎ ((o ≡ Ordering.eq) ⊎ (o ≡ Ordering.gt))
Ordering-cases Ordering.lt = inl refl
Ordering-cases Ordering.eq = inr (inl refl)
Ordering-cases Ordering.gt = inr (inr refl)

pub streq_refl : (xs : Bytes) → streq xs xs ≡ true
unfolding streq
streq_refl xs = rw strcmp_refl

pub eq_of_streq : (xs ys : Bytes) → streq xs ys ≡ true → xs ≡ ys
unfolding streq
eq_of_streq xs ys h = ground (arith, eq_of_strcmp xs ys)

pub streq-cons : (x y : ℕ) (xs ys : Bytes) → streq (x ∷ xs) (y ∷ ys) ≡ (x == y) && streq xs ys
unfolding streq strcmp
streq-cons x y xs ys = ground arith

pub streq-cons_nil : (x : ℕ) (xs : Bytes) → streq (x ∷ xs) [] ≡ false
unfolding streq strcmp
streq-cons_nil x xs = refl

pub streq-nil_cons : (y : ℕ) (ys : Bytes) → streq [] (y ∷ ys) ≡ false
unfolding streq strcmp
streq-nil_cons y ys = refl
