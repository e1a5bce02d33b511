-- ===== src/Wildcard/Matches.antt =====
-- Which keys of an index match a key, and how far the loop over a prefix decides it.
use comment_subs.Prelude.{
  ℕ, ◌≡◌, refl, ap, inl, inr, Bool, true, false, ◌&&◌, [], ◌∷◌, ◌++◌, Bytes, ◌==◌, Bool-cases,
  if◌then◌else◌,
}
use comment_subs.Wildcard.Defs.{Scan, wildcard, mismatch, through, scan_prefix, is_wild}

module _ (fnmatch : Bytes → Bytes → ℕ) where
  -- The key `k` of the index is literal up to its first wildcard, and a pattern from there on.
  unfoldable pub key_matches : (k key : Bytes) → Bool
  key_matches [] [] = true
  key_matches [] (c ∷ key) = false
  key_matches (p ∷ ps) [] = is_wild p && (fnmatch (p ∷ ps) [] == 0)
  key_matches (p ∷ ps) (c ∷ key) =
      let further = key_matches ps key in
      if is_wild p then fnmatch (p ∷ ps) (c ∷ key) == 0 else (p == c) && further

  -- What the result of the loop over a prefix says of the keys that begin with it.
  unfoldable pub ScanSays : Scan → (prefix key : Bytes) → Type 0
  ScanSays (wildcard left subkey) prefix key =
      (lit : Bytes) × (prefix ≡ lit ++ left)
      × ((k : Bytes) → key_matches (lit ++ (left ++ k)) key ≡ (fnmatch (left ++ k) subkey == 0))
  ScanSays mismatch prefix key = (k : Bytes) → key_matches (prefix ++ k) key ≡ false
  ScanSays (through rest) prefix key =
      (k : Bytes) → key_matches (prefix ++ k) key ≡ key_matches k rest

  pub scan_prefix-ScanSays : (prefix key : Bytes) → ScanSays (scan_prefix prefix key) prefix key
  unfolding scan_prefix ScanSays key_matches
  scan_prefix-ScanSays [] key = λ k. refl
  scan_prefix-ScanSays (p ∷ ps) [] = elim (Bool-cases (is_wild p)) [
    | inl wild ↦ rw wild ([], refl, λ k. rw wild refl)
    | inr plain ↦ rw plain (λ k. rw plain refl)
  ]
  scan_prefix-ScanSays (p ∷ ps) (c ∷ key) = elim (Bool-cases (is_wild p)) [
    | inl wild ↦ rw wild ([], refl, λ k. rw wild refl)
    | inr plain ↦ elim (Bool-cases (p == c)) [
      | inr differ ↦ rw (plain, differ) (λ k. rw (plain, differ) refl)
      | inl same ↦
          rw (plain, same)
            (more p c ps key plain same (scan_prefix ps key) (scan_prefix-ScanSays ps key))
    ]
  ]
    where
      more :
          (p c : ℕ) (ps key : Bytes)
          → is_wild p ≡ false
          → (p == c) ≡ true
          → (r : Scan) → ScanSays r ps key
          → ScanSays r (p ∷ ps) (c ∷ key)
      more p c ps key plain same (wildcard left subkey) (lit, is, says) =
          (p ∷ lit, ap (λ l. p ∷ l) is, λ k. rw (plain, same) (says k))
      more p c ps key plain same mismatch says = λ k. rw (plain, same) (says k)
      more p c ps key plain same (through rest) says = λ k. rw (plain, same) (says k)
