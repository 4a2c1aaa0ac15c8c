-- ===== src/Reader/Lines.antt =====
-- The reader on the lines that the programs of the made-up graph write, which start "CREATE (".
use dist_lfsck.Prelude.{
  ℕ, zero, suc, ◌+◌, ◌≤◌, ◌<◌, ◌≡◌, refl, ap, ◌∙◌, inl, inr, arith, ltb, lt→ltb, ltb→lt, Bool-cases,
  [], ◌∷◌, ◌++◌, append_assoc, Bytes, length, length-append, All, codes,
}
use dist_lfsck.Reader.Chunks.{
  IsPrintable, IsGraphic, fgets-line, unread-line, fgets-long, unread-long, c_string-line,
  word-append, length-c_string, length-skip_space, length-word,
}
use dist_lfsck.Reader.Ends.{Fits, sscanf_cases}
use dist_lfsck.Reader.{
  fgets, unread, c_string, skip_space, word, behind_word, Words, done, ◌>>=◌, scan_a, scan_b,
  sscanf, read_lines,
}
use dist_lfsck.Text.Digits.{All-append}

-- A line that the programs create, around what stands between "CREATE (" and the newline.
abbrev pub line_of : Bytes → Bytes → Bytes
line_of m rest = codes "CREATE (" ++ (m ++ 10 ∷ rest)

pub IsGraphic-IsPrintable : (xs : Bytes) → All IsGraphic xs → All IsPrintable xs
IsGraphic-IsPrintable [] h = tt
IsGraphic-IsPrintable (x ∷ xs) h = (omega arith, IsGraphic-IsPrintable xs h.1)

-- The loop comes to the text behind a line, with rounds enough.
abbrev pub Comes : ℕ → Bytes → Words → Bytes → Type 0
Comes fuel s w rest =
    (left : ℕ) × (t : Words) × (length rest < left) × (read_lines fuel s w ≡ read_lines left rest t)

created-IsPrintable : (m : Bytes) → All IsPrintable m → All IsPrintable (codes "CREATE (" ++ m)
created-IsPrintable m h = All-append IsPrintable (codes "CREATE (") m (omega arith) h

-- The words of a line that fits the buffer.
sscanf-line :
    (m : Bytes) (w : Words)
    → All IsGraphic m
    → length m < 59
    → sscanf (line_of m []) w ≡ done (record { a = codes "CREATE"; b = b'(' ∷ m })
unfolding sscanf scan_a scan_b word behind_word skip_space
sscanf-line m w g h =
    rw
      (
        c_string-line (codes "CREATE (" ++ m) (created-IsPrintable m (IsGraphic-IsPrintable m g)),
        word-append m [] 10 g refl,
        lt→ltb (length (b'(' ∷ m)) 75 (omega arith),
      )
      refl

-- A last line that fits the buffer, of two words.
pub last_line :
    (m : Bytes) (w : Words) (fuel : ℕ)
    → All IsGraphic m
    → length m < 59
    → read_lines (suc (suc fuel)) (line_of m []) w
      ≡ done (record { a = codes "CREATE"; b = b'(' ∷ m })
unfolding read_lines
last_line m w fuel g h =
    let p = created-IsPrintable m (IsGraphic-IsPrintable m g) in
    rw
      (
        fgets-line 67 (codes "CREATE (" ++ m) [] p (omega arith),
        unread-line 67 (codes "CREATE (" ++ m) [] p (omega arith),
        sscanf-line m w g h,
      )
      refl

-- The first word of a piece that starts a line.
first-Fits : (m : Bytes) → Fits (codes "CREATE (" ++ m)
unfolding c_string skip_space word
first-Fits m = omega arith

one_piece :
    (line : Bytes) (w : Words)
    → length line < 75
    → Fits line
    → (t : Words) × (sscanf line w ≡ done t)
one_piece line w h fits = elim (sscanf_cases line w h) [
  | inl (_, r) ↦ r
  | inr (long, _) ↦ absurd (omega arith)
]

-- One call of `fgets` takes a line that fits the buffer, and the loop goes on behind it.
take_line :
    (l rest : Bytes) (w : Words) (fuel : ℕ)
    → All IsPrintable l
    → length l < 67
    → Fits (l ++ 10 ∷ [])
    → (t : Words) × ((sscanf (fgets 67 (l ++ 10 ∷ rest)) w >>= λ u.
          read_lines fuel (unread 67 (l ++ 10 ∷ rest)) u)
        ≡ read_lines fuel rest t)
take_line l rest w fuel p h fits =
    let (t, e) = one_piece (l ++ 10 ∷ []) w (omega (arith, length-append l (10 ∷ []))) fits in
    (t, rw (fgets-line 67 l rest p h, unread-line 67 l rest p h, e) refl)

short_line :
    (l rest : Bytes) (w : Words) (fuel : ℕ)
    → All IsPrintable l
    → length l < 67
    → Fits (l ++ 10 ∷ [])
    → (t : Words) × (read_lines (suc fuel) (l ++ 10 ∷ rest) w ≡ read_lines fuel rest t)
unfolding read_lines
short_line [] rest w fuel p h fits = take_line [] rest w fuel p h fits
short_line (c ∷ l) rest w fuel p h fits = take_line (c ∷ l) rest w fuel p h fits

-- A first word is no longer than its piece.
short-Fits : (l : Bytes) → length l < 20 → Fits l
short-Fits l h = omega (
  arith,
  length-word (skip_space (c_string l)),
  length-skip_space (c_string l),
  length-c_string l,
)

-- A longer line takes two calls, and what the second finds fits as well.
long_line :
    (xs ys rest : Bytes) (w : Words) (fuel : ℕ)
    → All IsPrintable xs
    → All IsPrintable ys
    → length xs ≡ 59
    → length ys < 19
    → (t : Words) × (read_lines (suc (suc fuel)) (line_of (xs ++ ys) rest) w
        ≡ read_lines fuel rest t)
unfolding read_lines
long_line xs ys rest w fuel g k h l =
    let p = created-IsPrintable xs g in
    let (t, e) = one_piece (codes "CREATE (" ++ xs) w (omega arith) (first-Fits xs) in
    let (u, f) =
      short_line ys rest t fuel k (omega arith)
        (short-Fits (ys ++ 10 ∷ []) (omega (arith, length-append ys (10 ∷ [])))) in
    (
      u,
      rw
          (
            append_assoc xs ys (10 ∷ rest),
            fgets-long 67 (codes "CREATE (" ++ xs) (ys ++ 10 ∷ rest) p (omega arith),
            unread-long 67 (codes "CREATE (" ++ xs) (ys ++ 10 ∷ rest) p (omega arith),
            e,
            f,
          )
          refl,
    )

-- The first n items and the others.
split_at :
    (n : ℕ) (m : Bytes)
    → All IsPrintable m
    → n ≤ length m
    → (xs : Bytes) × (ys : Bytes) × (m ≡ xs ++ ys)
      × (length xs ≡ n)
      × All IsPrintable xs
      × All IsPrintable ys
split_at zero m p h = ([], m, refl, refl, tt, p)
split_at (suc n) [] p h = absurd (omega arith)
split_at (suc n) (c ∷ m) p h =
    let (xs, ys, e, l, g, k) = split_at n m p.1 (omega arith) in
    (c ∷ xs, ys, ap (λ z. c ∷ z) e, ap suc l, (p.0, g), k)

pub length-line_of : (m rest : Bytes) → length (line_of m rest) ≡ 9 + length m + length rest
length-line_of m rest = omega (arith, length-append m (10 ∷ rest))

pub line_step :
    (m rest : Bytes) (w : Words) (fuel : ℕ)
    → All IsPrintable m
    → length m < 78
    → length (line_of m rest) < fuel
    → Comes fuel (line_of m rest) w rest
line_step m rest w zero p h l = absurd (omega arith)
line_step m rest w (suc zero) p h l = absurd (omega arith)
line_step m rest w (suc (suc fuel)) p h l = elim (Bool-cases (ltb (length m) 59)) [
  | inl short ↦
      let (t, e) =
        short_line (codes "CREATE (" ++ m) rest w (suc fuel) (created-IsPrintable m p)
          (omega (arith, ltb→lt (length m) 59 short)) (first-Fits (m ++ 10 ∷ [])) in
      (suc fuel, t, omega (arith, length-line_of m rest), e)
  | inr long ↦
      let (xs, ys, e, n, g, k) = split_at 59 m p (ground arith) in
      let (t, f) =
        long_line xs ys rest w fuel g k n
          (omega (arith, length-append xs ys, ap (λ z. length z) e)) in
      (
        fuel,
        t,
        omega (arith, length-line_of m rest),
        ap (λ z. read_lines (suc (suc fuel)) (line_of z rest) w) e ∙ f,
      )
]
