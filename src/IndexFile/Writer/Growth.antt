-- ===== src/IndexFile/Writer/Growth.antt =====
-- Writing at the end of a file, and what then holds of every file with the same bytes there.
use comment_subs.Prelude.{
  ℕ, ◌+◌, ◌<◌, ◌≡◌, refl, ap, sym, ◌∙◌, [], ◌++◌, length, drop, Bytes, arith, append_assoc,
  length-append, drop-drop, drop-append, append-nil,
}

-- Offsets have 28 bits.
abbrev pub limit : ℕ
limit = 0x10000000

-- `out'` continues `out`, and `P` holds of each file that agrees with it from `out` on.
pub record Extends (P : Bytes → Type 0) (out out' : Bytes) : Type 0 where
  pub ext : Bytes
  pub grows : out' ≡ out ++ ext
  pub holds :
      (file more : Bytes) → drop (length out) file ≡ ext ++ more → length out' < limit → P file

pub none_ext : {P : Bytes → Type 0} (out : Bytes) → ((file : Bytes) → P file) → Extends P out out
none_ext out p = record { ext = []; grows = sym (append-nil out); holds = λ file more e h. p file }

pub mono_ext :
    {P Q : Bytes → Type 0} {out out' : Bytes}
    → ((file : Bytes) → length out' < limit → P file → Q file)
    → Extends P out out'
    → Extends Q out out'
mono_ext f x = record {
  ext = x.ext;
  grows = x.grows;
  holds = λ file more e h. f file h (x.holds file more e h);
}

pub both :
    {P Q : Bytes → Type 0} {out mid out' : Bytes}
    → Extends P out mid
    → Extends Q mid out'
    → Extends (λ file. P file × Q file) out out'
both {out} {mid} {out'} x y = record {
  ext = x.ext ++ y.ext;
  grows = y.grows ∙ ap (λ b. b ++ y.ext) x.grows ∙ append_assoc out x.ext y.ext;
  holds = λ file more e h.
      let start : drop (length out) file ≡ x.ext ++ (y.ext ++ more) =
        e ∙ append_assoc x.ext y.ext more in
      let sizes : length mid ≡ length out + length x.ext =
        ap length x.grows ∙ length-append out x.ext in
      let longer : length out' ≡ length mid + length y.ext =
        ap length y.grows ∙ length-append mid y.ext in
      let later : drop (length mid) file ≡ y.ext ++ more =
        ap (λ n. drop n file) sizes
        ∙ sym (drop-drop (length out) (length x.ext) file)
        ∙ ap (drop (length x.ext)) start
        ∙ drop-append x.ext (y.ext ++ more) (length x.ext) refl in
      (x.holds file (y.ext ++ more) start (omega arith), y.holds file more later h);
}

pub length_pos :
    {P : Bytes → Type 0} {out out' : Bytes} → Extends P out out' → 0 < length out → 0 < length out'
length_pos {out} x h = omega (arith, ap length x.grows, length-append out x.ext)
