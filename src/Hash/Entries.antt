-- ===== src/Hash/Entries.antt =====
-- Sorted lists of entries, and what they map a key to.
use comment_subs.Prelude.{
  ℕ, ◌≡◌, refl, ◌∙◌, false, Option, none, some, List, [], ◌∷◌, ◌++◌, if◌then◌else◌, Bytes, streq,
  Below, Below-trans, strcmp-gt, Bool-cases, inl, inr, eq_of_streq,
}
use comment_subs.Hash.Defs.{Entry}

unfoldable pub lookup : Bytes → List Entry → Option ℕ
lookup k [] = none
lookup k (e ∷ es) = if streq e.key k then some e.value else lookup k es

abbrev pub AllBelow : Bytes → List Entry → Type 0
AllBelow k [] = Unit
AllBelow k (e ∷ es) = Below e.key k × AllBelow k es

abbrev pub AllAbove : Bytes → List Entry → Type 0
AllAbove k [] = Unit
AllAbove k (e ∷ es) = Below k e.key × AllAbove k es

abbrev pub IsSorted : List Entry → Type 0
IsSorted [] = Unit
IsSorted (e ∷ es) = AllAbove e.key es × IsSorted es

pub AllBelow-append :
    (k : Bytes) (xs ys : List Entry) → AllBelow k xs → AllBelow k ys → AllBelow k (xs ++ ys)
AllBelow-append k [] ys h g = g
AllBelow-append k (x ∷ xs) ys h g = (h.0, AllBelow-append k xs ys h.1 g)

pub AllAbove-append :
    (k : Bytes) (xs ys : List Entry) → AllAbove k xs → AllAbove k ys → AllAbove k (xs ++ ys)
AllAbove-append k [] ys h g = g
AllAbove-append k (x ∷ xs) ys h g = (h.0, AllAbove-append k xs ys h.1 g)

pub AllAbove-right : (k : Bytes) (xs ys : List Entry) → AllAbove k (xs ++ ys) → AllAbove k ys
AllAbove-right k [] ys h = h
AllAbove-right k (x ∷ xs) ys h = AllAbove-right k xs ys h.1

AllAbove-left : (k : Bytes) (xs ys : List Entry) → AllAbove k (xs ++ ys) → AllAbove k xs
AllAbove-left k [] ys h = tt
AllAbove-left k (x ∷ xs) ys h = (h.0, AllAbove-left k xs ys h.1)

pub AllBelow-trans : (j k : Bytes) (xs : List Entry) → AllBelow j xs → Below j k → AllBelow k xs
AllBelow-trans j k [] h b = tt
AllBelow-trans j k (x ∷ xs) h b = (Below-trans x.key j k h.0 b, AllBelow-trans j k xs h.1 b)

pub AllAbove-trans : (j k : Bytes) (xs : List Entry) → AllAbove k xs → Below j k → AllAbove j xs
AllAbove-trans j k [] h b = tt
AllAbove-trans j k (x ∷ xs) h b = (Below-trans j k x.key b h.0, AllAbove-trans j k xs h.1 b)

-- The parts of a sorted list around one entry.
pub IsSorted-split :
    (xs ys : List Entry) (e : Entry)
    → IsSorted (xs ++ e ∷ ys)
    → AllBelow e.key xs × AllAbove e.key ys × IsSorted (xs ++ ys)
IsSorted-split [] ys e h = (tt, h.0, h.1)
IsSorted-split (x ∷ xs) ys e h =
    let rest = IsSorted-split xs ys e h.1 in
    let over = AllAbove-right x.key xs (e ∷ ys) h.0 in
    (
      (over.0, rest.0),
      rest.1,
      (AllAbove-append x.key xs ys (AllAbove-left x.key xs (e ∷ ys) h.0) over.1, rest.2),
    )

pub IsSorted-insert :
    (xs ys : List Entry) (e : Entry)
    → IsSorted (xs ++ ys)
    → AllBelow e.key xs
    → AllAbove e.key ys
    → IsSorted (xs ++ e ∷ ys)
IsSorted-insert [] ys e h b a = (a, h)
IsSorted-insert (x ∷ xs) ys e h b a = (
  AllAbove-append x.key xs (e ∷ ys) (AllAbove-left x.key xs ys h.0)
      (b.0, AllAbove-right x.key xs ys h.0),
  IsSorted-insert xs ys e h.1 b.1 a,
)

streq_lt : (j k : Bytes) → Below j k → streq j k ≡ false
unfolding streq
streq_lt j k h = rw h

streq_gt : (j k : Bytes) → Below k j → streq j k ≡ false
unfolding streq
streq_gt j k h = rw (strcmp-gt j k h)

lookup-below : (k : Bytes) (xs ys : List Entry) → AllBelow k xs → lookup k (xs ++ ys) ≡ lookup k ys
unfolding lookup
lookup-below k [] ys h = refl
lookup-below k (x ∷ xs) ys h = rw (streq_lt x.key k h.0) (lookup-below k xs ys h.1)

lookup-above : (k : Bytes) (ys : List Entry) → AllAbove k ys → lookup k ys ≡ none
unfolding lookup
lookup-above k [] h = refl
lookup-above k (y ∷ ys) h = rw (streq_gt y.key k h.0) (lookup-above k ys h.1)

-- No entry has a key between two neighbours.
pub lookup-absent :
    (k : Bytes) (xs ys : List Entry) → AllBelow k xs → AllAbove k ys → lookup k (xs ++ ys) ≡ none
lookup-absent k xs ys h g = lookup-below k xs ys h ∙ lookup-above k ys g

-- One entry more, or one entry less.
pub lookup-insert :
    (k : Bytes) (xs ys : List Entry) (e : Entry)
    → AllBelow e.key xs
    → lookup k (xs ++ e ∷ ys) ≡ (if streq e.key k then some e.value else lookup k (xs ++ ys))
unfolding lookup
lookup-insert k [] ys e h = refl
lookup-insert k (x ∷ xs) ys e h = elim (Bool-cases (streq e.key k)) [
  | inr other ↦ rw (lookup-insert k xs ys e h.1, other)
  | inl same ↦
      let is : e.key ≡ k = eq_of_streq e.key k same in
      let miss : streq x.key k ≡ false = streq_lt x.key k (rw is at h.0) in
      rw (lookup-insert k xs ys e h.1, same, miss)
]
