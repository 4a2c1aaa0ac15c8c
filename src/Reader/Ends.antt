-- ===== src/Reader/Ends.antt =====
-- How the reader ends on any file: neither the loop nor the second word goes too far.
use dist_lfsck.Prelude.{
  ℕ, zero, suc, ◌-◌, ◌≤◌, ◌<◌, ◌≡◌, refl, ap, ◌⊎◌, inl, inr, arith, ltb, lt→ltb, ltb→lt, Bool-cases,
  some, List, [], ◌∷◌, Bytes, length, All,
}
use dist_lfsck.Reader.Chunks.{
  unread-lt, length-fgets, length-c_string, length-skip_space, length-word, length-behind_word,
}
use dist_lfsck.Reader.{
  fgets, unread, c_string, skip_space, word, behind_word, Words, sizeof_a, sizeof_b, sizeof_line,
  done, overruns_a, scan_a, scan_b, sscanf, read_lines, empty_words, main,
}

-- Some item has the property.
abbrev pub Any {ℓ} : {A : Type ℓ} → (A → Type 0) → List A → Type 0
Any P [] = ⊥
Any P (x ∷ xs) = P x ⊎ Any P xs

-- The pieces of a file that the calls of `fgets` take, at most `n` of them.
unfoldable pub pieces : ℕ → Bytes → List Bytes
pieces zero s = []
pieces (suc n) [] = []
pieces (suc n) (c ∷ s) =
    fgets (sizeof_line - 1) (c ∷ s) ∷ pieces n (unread (sizeof_line - 1) (c ∷ s))

abbrev pub first_word : Bytes → Bytes
first_word line = word (skip_space (c_string line))

-- The first word of a piece fits `char a[20]` with its NUL, or does not.
abbrev pub Fits : Bytes → Type 0
Fits line = length (first_word line) < sizeof_a

abbrev pub IsTooLong : Bytes → Type 0
IsTooLong line = sizeof_a ≤ length (first_word line)

-- A string shorter than b's array always fits.
scan_b_done : (s : Bytes) (w : Words) → length s < sizeof_b → (t : Words) × (scan_b s w ≡ done t)
unfolding scan_b
scan_b_done [] w h = (w, refl)
scan_b_done (c ∷ s) w h = (
  record w { b = word (c ∷ s) },
  rw (lt→ltb (length (word (c ∷ s))) sizeof_b (omega (arith, length-word (c ∷ s)))),
)

scan_a_cases :
    (s : Bytes) (w : Words)
    → length s < sizeof_b
    → ((length (word s) < sizeof_a) × ((t : Words) × (scan_a s w ≡ done t)))
      ⊎ ((sizeof_a ≤ length (word s)) × (scan_a s w ≡ overruns_a))
unfolding scan_a word
scan_a_cases [] w h = inl (omega arith, (w, refl))
scan_a_cases (c ∷ s) w h = elim (Bool-cases (ltb (length (word (c ∷ s))) sizeof_a)) [
  | inl fits ↦
      let rest = skip_space (behind_word (c ∷ s)) in
      let (t, e) =
        scan_b_done rest (record w { a = word (c ∷ s) })
          (omega (arith, length-skip_space (behind_word (c ∷ s)), length-behind_word (c ∷ s))) in
      inl (ltb→lt (length (word (c ∷ s))) sizeof_a fits, (t, rw (fits, e)))
  | inr long ↦ inr (ground arith, rw long)
]

pub sscanf_cases :
    (line : Bytes) (w : Words)
    → length line < sizeof_b
    → (Fits line × ((t : Words) × (sscanf line w ≡ done t)))
      ⊎ (IsTooLong line × (sscanf line w ≡ overruns_a))
unfolding sscanf
sscanf_cases line w h =
    scan_a_cases (skip_space (c_string line)) w
      (omega (arith, length-skip_space (c_string line), length-c_string line))

read_lines_cases :
    (fuel : ℕ) (s : Bytes) (w : Words)
    → length s < fuel
    → (All Fits (pieces fuel s) × ((t : Words) × (read_lines fuel s w ≡ done t)))
      ⊎ (Any IsTooLong (pieces fuel s) × (read_lines fuel s w ≡ overruns_a))
unfolding read_lines pieces
read_lines_cases zero s w h = absurd (omega arith)
read_lines_cases (suc fuel) [] w h = inl (tt, (w, refl))
read_lines_cases (suc fuel) (c ∷ s) w h =
    let line = fgets 67 (c ∷ s) in
    let rest = unread 67 (c ∷ s) in
    elim (sscanf_cases line w (omega (arith, length-fgets 67 (c ∷ s)))) [
      | inr (long, e) ↦ inr (inl long, rw e)
      | inl (fits, (t, e)) ↦ elim (read_lines_cases fuel rest t (omega (arith, unread-lt 66 c s))) [
        | inl (all, (u, f)) ↦ inl ((fits, all), (u, rw (e, f)))
        | inr (some_long, f) ↦ inr (inr some_long, rw (e, f))
      ]
    ]

-- Whatever the file holds, the reader ends. It reads it to the end, when the first word of each
-- piece of at most 67 characters that fgets takes has fewer than 20; or it writes a first word
-- behind `char a[20]`, when there is one of 20 or more. It never writes behind `char b[75]`.
pub reader_ends :
    (text : Bytes)
    → (All Fits (pieces (suc (length text)) text)
        × ((t : Words) × (main (some text) ≡ some (done t))))
      ⊎ (Any IsTooLong (pieces (suc (length text)) text) × (main (some text) ≡ some overruns_a))
unfolding main
reader_ends text = elim (read_lines_cases (suc (length text)) text empty_words (omega arith)) [
  | inl (all, (t, e)) ↦ inl (all, (t, ap some e))
  | inr (long, e) ↦ inr (long, ap some e)
]
