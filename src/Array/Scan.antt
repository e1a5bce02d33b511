-- ===== src/Array/Scan.antt =====
-- array_append_unique.
use comment_subs.Prelude.{
  ℕ, ◌+◌, ◌≡◌, refl, Bool, true, false, some, List, [], ◌∷◌, ◌++◌, arith, length, length-append,
  append_assoc, eexist, ◌==◌, if◌then◌else◌,
}
use comment_subs.Memory.{Block, filled, length-filled, filled-insert, load, load-append}
use comment_subs.Array.Defs.{Ptr, Array, array_scan, array_append, array_append_unique}
use comment_subs.Array.Reps.{IsArray}

unfoldable pub contains : List Ptr → Ptr → Bool
contains [] p = false
contains (x ∷ xs) p = if x == p then true else contains xs p

array_scan-contains :
    (before xs : List Ptr) (rest : Block Ptr) (p : Ptr) (i : ℕ)
    → i ≡ length before
    → array_scan (filled (before ++ xs) ++ rest) i (length xs) p ≡ some (contains xs p)
unfolding array_scan contains
array_scan-contains before [] rest p i e = refl
array_scan-contains before (x ∷ xs) rest p i e =
    let at : i ≡ length (filled before) = omega (arith, length-filled before) in
    let here : load (filled (before ++ x ∷ xs) ++ rest) i ≡ some x =
      rw filled-insert (load-append (filled before) (filled xs ++ rest) x i at) in
    let on =
      array_scan-contains (before ++ x ∷ []) xs rest p (i + 1)
        (omega (arith, length-append before (x ∷ []))) in
    let further = rw append_assoc at on in rw (here, further) (ground arith)

-- With a pointer that the array holds, array_append_unique returns -EEXIST and changes nothing;
-- with any other it is array_append.
pub array_append_unique_lem :
    (granted : Bool) {a : Array} {xs : List Ptr} (v : IsArray a xs) (x : Ptr)
    → array_append_unique granted a x
      ≡ (if contains xs x then some (a, eexist) else array_append granted a x)
unfolding array_append_unique
array_append_unique_lem granted {a} {xs} v x =
    let scanned : array_scan a.block 0 a.count x ≡ some (contains xs x) =
      rw (v.split, v.count) (array_scan-contains [] xs v.rest x 0 refl) in
    rw scanned
