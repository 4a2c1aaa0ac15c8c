-- ===== src/Reader/Made.antt =====
-- The reader on the file that comb.c and combine_oss.c leave.
use native.Mathlib.Nat.{div-le_self}
use dist_lfsck.Demo.Seed.{rows, object_of, open_both, made_files}
use dist_lfsck.Demo.{
  MdsRow, OssRow, Line, create_mds, create_oss, Desk, line_text, mds_row, comb, combine_oss,
}
use dist_lfsck.Flow.{Flow, next, exit, spins, ◌>>=◌}
use dist_lfsck.Prelude.{
  ℕ, zero, suc, ◌+◌, ◌-◌, ◌%◌, ◌^◌, ◌<◌, ◌≡◌, refl, ap, sym, ◌∙◌, arith, some, List, [], ◌∷◌, ◌++◌,
  map, append_assoc, Bytes, length, All, codes,
}
use dist_lfsck.Reader.Chunks.{IsPrintable}
use dist_lfsck.Reader.Lines.{
  line_of, Comes, last_line, line_step, IsGraphic-IsPrintable, length-line_of,
}
use dist_lfsck.Reader.{Words, done, read_lines, empty_words, main}
use dist_lfsck.Text.Digits.{All-append}
use dist_lfsck.Text.{dec, digits}
use dist_lfsck.Reader.Rows.{
  mds_middle, oss_middle, line_text-mds, line_text-oss, IsSmall, oss_middle-IsGraphic,
  mds_middle-IsPrintable, oss_middle-short, mds_middle-short,
}

-- What a file of these lines holds.
abbrev pub file_text : List Line → Bytes
file_text [] = []
file_text (l ∷ ls) = line_text l ++ file_text ls

-- A line that the reader gets behind in one call of fgets or two.
abbrev IsMade : Line → Type 0
IsMade l =
    (m : Bytes) × ((rest : Bytes) → line_text l ++ rest ≡ line_of m rest)
    × All IsPrintable m
    × (length m < 78)

nodes-IsMade : (rs : List MdsRow) → All IsSmall rs → All IsMade (map create_mds rs)
nodes-IsMade [] h = tt
nodes-IsMade (r ∷ rs) h = (
  (mds_middle r, line_text-mds r, mds_middle-IsPrintable r, mds_middle-short r h.0),
  nodes-IsMade rs h.1,
)

objects-IsMade :
    (rs : List MdsRow) → All IsSmall rs → All IsMade (map create_oss (map object_of rs))
objects-IsMade [] h = tt
objects-IsMade (r ∷ rs) h =
    let g = IsGraphic-IsPrintable (oss_middle (object_of r)) (oss_middle-IsGraphic (object_of r)) in
    (
      (
        oss_middle (object_of r),
        line_text-oss (object_of r),
        g,
        omega (arith, oss_middle-short r h.0),
      ),
      objects-IsMade rs h.1,
    )

lines_step :
    (ls : List Line) (rest : Bytes) (w : Words) (fuel : ℕ)
    → All IsMade ls
    → length (file_text ls ++ rest) < fuel
    → Comes fuel (file_text ls ++ rest) w rest
lines_step [] rest w fuel made h = (fuel, w, h, refl)
lines_step (l ∷ ls) rest w fuel ((m, text, p, short), made) h =
    let behind = file_text ls ++ rest in
    let e = append_assoc (line_text l) (file_text ls) rest ∙ text behind in
    let (left, t, n, f) = line_step m behind w fuel p short (rw e at h) in
    let (left', u, n', f') = lines_step ls rest t left made n in
    (left', u, n', ap (λ z. read_lines fuel z w) e ∙ f ∙ f')

file_text-append : (xs ys : List Line) → file_text (xs ++ ys) ≡ file_text xs ++ file_text ys
file_text-append [] ys = refl
file_text-append (x ∷ xs) ys =
    ap (λ z. line_text x ++ z) (file_text-append xs ys)
    ∙ sym (append_assoc (line_text x) (file_text xs) (file_text ys))

-- The words of the last line.
abbrev pub last_words : (ℕ → ℕ) → Words
last_words rand = record {
  a = codes "CREATE";
  b =
      codes "(10:OSS{inode_number:"
      ++ (dec (rand 18) ++ (codes ",lma:10,FID:" ++ (dec (rand 19 % 50) ++ codes "})")));
}

module _ (rand : ℕ → ℕ) (int : (k : ℕ) → rand k < 2 ^ 31) where
  rows-IsSmall : (n i k : ℕ) → All IsSmall (rows rand n i k)
  unfolding mds_row
  rows-IsSmall zero i k = tt
  rows-IsSmall (suc n) i k = (
    (
      omega (arith, int k),
      omega (arith, div-le_self 100 i),
      omega (arith, div-le_self 200 i),
      omega arith,
    ),
    rows-IsSmall n (i + 1) (k + 2),
  )

  -- All lines of the made file but the last.
  abbrev first_lines : List Line
  first_lines =
      map create_mds (rows rand 10 1 0) ++ map create_oss (map object_of (rows rand 9 1 0))

  abbrev last_object : OssRow
  last_object = object_of (mds_row rand 18 10)

  made_text :
      file_text
        (map create_mds (rows rand 10 1 0) ++ map create_oss (map object_of (rows rand 10 1 0)))
      ≡ file_text first_lines ++ line_of (oss_middle last_object) []
  unfolding mds_row
  made_text =
      file_text-append first_lines (create_oss last_object ∷ [])
      ∙ ap (λ z. file_text first_lines ++ z) (line_text-oss last_object [])

  last_words_lem :
      record { a = codes "CREATE"; b = b'(' ∷ oss_middle last_object } ≡ last_words rand
  unfolding oss_middle mds_row dec digits
  last_words_lem = refl

  read_made :
      main (some (file_text first_lines ++ line_of (oss_middle last_object) []))
      ≡ some (done (last_words rand))
  unfolding main
  read_made =
      let end = line_of (oss_middle last_object) [] in
      let small = rows-IsSmall 10 1 0 in
      let made =
        All-append IsMade (map create_mds (rows rand 10 1 0))
          (map create_oss (map object_of (rows rand 9 1 0))) (nodes-IsMade (rows rand 10 1 0) small)
          (objects-IsMade (rows rand 9 1 0) (rows-IsSmall 9 1 0)) in
      let (left, t, n, e) =
        lines_step first_lines end empty_words (suc (length (file_text first_lines ++ end))) made
          (omega arith) in
      let enough : left ≡ suc (suc (left - 2)) =
        omega (arith, length-line_of (oss_middle last_object) []) in
      let short = oss_middle-short (mds_row rand 18 10) (rows-IsSmall 1 10 18).0 in
      ap some (
        e
        ∙ ap (λ z. read_lines z end t) enough
        ∙ last_line (oss_middle last_object) t (left - 2) (oss_middle-IsGraphic last_object) short
        ∙ ap done last_words_lem)

second_file : Flow Desk → List Line
second_file (next d) = d.file2
second_file (exit d status) = d.file2
second_file spins = []

-- When both files can be opened, comb.c and then combine_oss.c have run, and `rand` gives values of
-- an int, graph_relationships.c reads file2 to its end without an overrun, and then holds the two
-- words of the last line: "CREATE", and the tenth object with what combine_oss.c has drawn for it.
pub made_file_read :
    (rand : ℕ → ℕ) (s d : Desk)
    → ((k : ℕ) → rand k < 2 ^ 31)
    → (comb rand open_both s >>= combine_oss rand open_both) ≡ next d
    → main (some (file_text d.file2)) ≡ some (done (last_words rand))
unfolding second_file
made_file_read rand s d int e =
    let file2 = ap second_file (sym e ∙ made_files rand s) in
    ap (λ z. main (some (file_text z))) file2
    ∙ ap (λ z. main (some z)) (made_text rand int)
    ∙ read_made rand int
