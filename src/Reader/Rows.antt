-- ===== src/Reader/Rows.antt =====
-- The lines of the made-up nodes: what stands in them, and how long they are.
use dist_lfsck.Demo.Seed.{object_of}
use dist_lfsck.Demo.{MdsRow, OssRow, create_mds, create_oss, line_text}
use dist_lfsck.Prelude.{
  ℕ, ◌^◌, ◌<◌, ◌≡◌, arith, [], ◌++◌, append_assoc, Bytes, length, length-append, All, codes,
}
use dist_lfsck.Reader.Chunks.{IsPrintable, IsGraphic}
use dist_lfsck.Reader.Lines.{line_of, IsGraphic-IsPrintable}
use dist_lfsck.Text.Digits.{length-dec_pow, dec-IsGraphic, All-append}
use dist_lfsck.Text.{dec}

-- Between "CREATE (" and the newline.
pub mds_middle : MdsRow → Bytes
mds_middle r =
    dec r.lma
    ++ (codes ":MDS{inode_number:"
        ++ (dec r.inode_number
            ++ (codes ",lma:"
                ++ (dec r.lma
                    ++ (codes ",linkEA:"
                        ++ (dec r.link_ea
                            ++ (codes ",lovEA:" ++ (dec r.lov_ea ++ codes "}) "))))))))

unfoldable pub oss_middle : OssRow → Bytes
oss_middle r =
    dec r.lma
    ++ (codes ":OSS{inode_number:"
        ++ (dec r.inode_number
            ++ (codes ",lma:" ++ (dec r.lma ++ (codes ",FID:" ++ (dec r.fid ++ codes "})"))))))

pub line_text-mds :
    (r : MdsRow) (rest : Bytes) → line_text (create_mds r) ++ rest ≡ line_of (mds_middle r) rest
unfolding line_text mds_middle
line_text-mds r rest = simp append_assoc

pub line_text-oss :
    (r : OssRow) (rest : Bytes) → line_text (create_oss r) ++ rest ≡ line_of (oss_middle r) rest
unfolding line_text oss_middle
line_text-oss r rest = simp append_assoc

-- The values of a round: rand gives an int, and the others have at most three digits.
abbrev pub IsSmall : MdsRow → Type 0
IsSmall r =
    (r.inode_number < 10 ^ 10) × (r.lma < 10 ^ 3) × (r.link_ea < 10 ^ 3) × (r.lov_ea < 10 ^ 2)

-- A printed number between two texts.
between {ℓ} :
    (P : ℕ → Type ℓ) (a : Bytes) (n : ℕ) (b : Bytes)
    → ((k : ℕ) → All P (dec k))
    → All P a
    → All P b
    → All P (a ++ (dec n ++ b))
between P a n b hd ha hb = All-append P a (dec n ++ b) ha (All-append P (dec n) b (hd n) hb)

pub oss_middle-IsGraphic : (r : OssRow) → All IsGraphic (oss_middle r)
unfolding oss_middle
oss_middle-IsGraphic r =
    let gap = λ (a : Bytes) (n : ℕ) (b : Bytes). between IsGraphic a n b dec-IsGraphic in
    gap [] r.lma _ tt (
      gap (codes ":OSS{inode_number:") r.inode_number _ (omega arith) (
        gap (codes ",lma:") r.lma _ (omega arith)
          (gap (codes ",FID:") r.fid (codes "})") (omega arith) (omega arith))))

pub mds_middle-IsPrintable : (r : MdsRow) → All IsPrintable (mds_middle r)
unfolding mds_middle
mds_middle-IsPrintable r =
    let gap = λ (a : Bytes) (n : ℕ) (b : Bytes).
      between IsPrintable a n b (λ k. IsGraphic-IsPrintable (dec k) (dec-IsGraphic k)) in
    gap [] r.lma _ tt (
      gap (codes ":MDS{inode_number:") r.inode_number _ (omega arith) (
        gap (codes ",lma:") r.lma _ (omega arith) (
          gap (codes ",linkEA:") r.link_ea _ (omega arith)
            (gap (codes ",lovEA:") r.lov_ea (codes "}) ") (omega arith) (omega arith)))))

pub oss_middle-short : (r : MdsRow) → IsSmall r → length (oss_middle (object_of r)) < 59
unfolding oss_middle
oss_middle-short r small = simp length-append (
    omega (
      arith,
      length-dec_pow 2 r.lma small.1,
      length-dec_pow 9 r.inode_number small.0,
      length-dec_pow 1 r.lov_ea small.3,
    ))

pub mds_middle-short : (r : MdsRow) → IsSmall r → length (mds_middle r) < 78
unfolding mds_middle
mds_middle-short r small = simp length-append (
    omega (
      arith,
      length-dec_pow 2 r.lma small.1,
      length-dec_pow 9 r.inode_number small.0,
      length-dec_pow 2 r.link_ea small.2,
      length-dec_pow 1 r.lov_ea small.3,
    ))
