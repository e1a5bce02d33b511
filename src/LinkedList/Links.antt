-- ===== src/LinkedList/Links.antt =====
-- Sequences of nodes that are linked in both directions.
use comment_subs.Prelude.{Bool, true, false, List, [], ◌∷◌, ◌++◌, ◌==◌, ◌||◌, ◌≡◌, ◌≢◌, refl, arith}
use comment_subs.LinkedList.Defs.{NodePtr}

abbrev pub has : NodePtr → List NodePtr → Bool
has a [] = false
has a (x ∷ xs) = (a == x) || has a xs

abbrev pub Distinct : List NodePtr → Type 0
Distinct [] = Unit
Distinct (x ∷ xs) = (has x xs ≡ false) × Distinct xs

-- The last node of a list that is not empty.
abbrev pub last_of : NodePtr → List NodePtr → NodePtr
last_of p [] = p
last_of p (x ∷ xs) = last_of x xs

-- From `p` through the nodes `xs` to `q`, where `next` and `prev` agree.
unfoldable pub Links : (next prev : NodePtr → NodePtr) → NodePtr → List NodePtr → NodePtr → Type 0
Links next prev p [] q = (next p ≡ q) × (prev q ≡ p)
Links next prev p (x ∷ xs) q = (next p ≡ x) × (prev x ≡ p) × Links next prev x xs q

pub has-append : (a : NodePtr) (xs ys : List NodePtr) → has a (xs ++ ys) ≡ (has a xs || has a ys)
has-append a [] ys = refl
has-append a (x ∷ xs) ys = ground (arith, has-append a xs ys)

pub has_rotate : (a p : NodePtr) (xs : List NodePtr) → has a (xs ++ p ∷ []) ≡ has a (p ∷ xs)
has_rotate a p xs = ground (arith, has-append a xs (p ∷ []))

pub has-last_of : (p : NodePtr) (xs : List NodePtr) → has (last_of p xs) (p ∷ xs) ≡ true
has-last_of p [] = ground arith
has-last_of p (x ∷ xs) = ground (arith, has-last_of x xs)

pub last_of-append :
    (p : NodePtr) (xs : List NodePtr) (y : NodePtr) (ys : List NodePtr)
    → last_of p (xs ++ y ∷ ys) ≡ last_of y ys
last_of-append p [] y ys = refl
last_of-append p (x ∷ xs) y ys = last_of-append x xs y ys

module _ (f g : NodePtr → NodePtr) where
  pub Links-append :
      (p : NodePtr) (xs : List NodePtr) (y : NodePtr) (ys : List NodePtr) (q : NodePtr)
      → Links f g p xs y
      → Links f g y ys q
      → Links f g p (xs ++ y ∷ ys) q
  unfolding Links
  Links-append p [] y ys q l m = (l.0, l.1, m)
  Links-append p (x ∷ xs) y ys q l m = (l.0, l.1, Links-append x xs y ys q l.2 m)

  pub Links-split :
      (p : NodePtr) (xs : List NodePtr) (y : NodePtr) (ys : List NodePtr) (q : NodePtr)
      → Links f g p (xs ++ y ∷ ys) q
      → Links f g p xs y × Links f g y ys q
  unfolding Links
  Links-split p [] y ys q l = ((l.0, l.1), l.2)
  Links-split p (x ∷ xs) y ys q l =
      let rest = Links-split x xs y ys q l.2 in ((l.0, l.1, rest.0), rest.1)

  pub Links-last :
      (p : NodePtr) (xs : List NodePtr) (q : NodePtr)
      → Links f g p xs q
      → (f (last_of p xs) ≡ q) × (g q ≡ last_of p xs)
  unfolding Links
  Links-last p [] q l = l
  Links-last p (x ∷ xs) q l = Links-last x xs q l.2

  -- In a ring the successor of the head is one of the nodes.
  pub has-next : (p : NodePtr) (xs : List NodePtr) → Links f g p xs p → has (f p) (p ∷ xs) ≡ true
  unfolding Links
  has-next p [] l = ground (arith, l.0)
  has-next p (x ∷ xs) l = ground (arith, l.0)

module _ {f g f1 g1 : NodePtr → NodePtr} where
  pub Links-frame :
      (p : NodePtr) (xs : List NodePtr) (q : NodePtr)
      → Links f g p xs q
      → ((a : NodePtr) → has a (p ∷ xs) ≡ true → f1 a ≡ f a)
      → ((a : NodePtr) → has a (xs ++ q ∷ []) ≡ true → g1 a ≡ g a)
      → Links f1 g1 p xs q
  unfolding Links
  Links-frame p [] q l s t = ground (arith, s p, t q)
  Links-frame p (x ∷ xs) q l s t = (
    ground (arith, s p),
    ground (arith, t x),
    Links-frame x xs q l.2 (λ a i. s a (ground arith)) (λ a i. t a (ground arith)),
  )

  -- The sequence, led to another end.
  pub Links-retarget :
      (p : NodePtr) (xs : List NodePtr) (q r : NodePtr)
      → Links f g p xs q
      → Distinct (p ∷ xs)
      → f1 (last_of p xs) ≡ r
      → g1 r ≡ last_of p xs
      → ((a : NodePtr) → has a (p ∷ xs) ≡ true → a ≢ last_of p xs → f1 a ≡ f a)
      → ((a : NodePtr) → has a xs ≡ true → g1 a ≡ g a)
      → Links f1 g1 p xs r
  unfolding Links
  Links-retarget p [] q r l apart to from s t = (to, from)
  Links-retarget p (x ∷ xs) q r l apart to from s t = (
    ground (arith, s p, has-last_of x xs),
    ground (arith, t x),
    Links-retarget x xs q r l.2 apart.1 to from (λ a i n. s a (ground arith) n)
        (λ a i. t a (ground arith)),
  )
