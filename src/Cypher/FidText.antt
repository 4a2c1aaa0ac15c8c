-- ===== src/Cypher/FidText.antt =====
-- The text of a FID, which the joins of the statements compare, read back.
use dist_lfsck.Cypher.{fid_text}
use dist_lfsck.Lustre.{LuFid}
use dist_lfsck.Prelude.{
  ℕ, ◌<◌, ◌⊎◌, ◌≡◌, sym, ap, ◌∙◌, inl, inr, [], ◌∷◌, ◌++◌, append_assoc, arith, Bytes,
}
use dist_lfsck.Text.Cut.{before, behind, before-append, behind-append, drop}
use dist_lfsck.Text.Digits.{value-hex, hex-Lacks}
use dist_lfsck.Text.{hex, value}

-- The quote that stands round a FID in a statement.
abbrev pub quote : ℕ
quote = 39

-- The number in hexadecimal up to the character `c`.
unfoldable pub read_hex : ℕ → Bytes → ℕ
unfolding before value
read_hex c s = value 16 0 (before c s)

pub read_hex-hex :
    (c n : ℕ) (rest : Bytes)
    → (c < b'0') ⊎ (b'9' < c) × (c < b'a')
    → read_hex c (hex n ++ c ∷ rest) ≡ n
unfolding read_hex
read_hex-hex c n rest h =
    ap (value 16 0) (before-append c (hex n) rest (hex-Lacks c n h)) ∙ value-hex n

-- The FID that stands in front of a quote.
unfoldable pub fid_of : Bytes → LuFid
unfolding read_hex behind drop
fid_of s =
    let seq = drop 2 s in
    let oid = drop 2 (behind b':' seq) in
    let ver = drop 2 (behind b':' oid) in
    record { f_seq = read_hex b':' seq; f_oid = read_hex b':' oid; f_ver = read_hex quote ver }

module _ (f : LuFid) (rest : Bytes) where
  abbrev ver_text : Bytes
  ver_text = hex f.f_ver ++ quote ∷ rest

  abbrev oid_text : Bytes
  oid_text = hex f.f_oid ++ b':' ∷ b'0' ∷ b'x' ∷ ver_text

  fid_text-append :
      fid_text f ++ quote ∷ rest ≡ b'0' ∷ b'x' ∷ (hex f.f_seq ++ b':' ∷ b'0' ∷ b'x' ∷ oid_text)
  unfolding fid_text
  fid_text-append = simp append_assoc

  behind-hex : (n : ℕ) (s : Bytes) → behind b':' (hex n ++ b':' ∷ s) ≡ s
  behind-hex n s = behind-append b':' (hex n) s (hex-Lacks b':' n (inr (omega arith, omega arith)))

  -- The FID is read back from its text.
  pub fid_of-fid_text : fid_of (fid_text f ++ quote ∷ rest) ≡ f
  unfolding fid_of drop
  fid_of-fid_text = rw fid_text-append (
      simp (
        behind-hex,
        read_hex-hex b':' _ _ (inr (omega arith, omega arith)),
        read_hex-hex quote _ _ (inl (omega arith)),
      ))

-- Two FIDs with the same text "0x%llx:0x%x:0x%x" are the same FID.
pub fid_text_injective : (f g : LuFid) → fid_text f ≡ fid_text g → f ≡ g
fid_text_injective f g h =
    sym (fid_of-fid_text f []) ∙ ap (λ s. fid_of (s ++ quote ∷ [])) h ∙ fid_of-fid_text g []
