-- ===== src/Reader/Chunks.antt =====
-- What `fgets` takes from a file of lines, and the words in it.
use dist_lfsck.Prelude.{
  ℕ, zero, suc, ◌≤◌, ◌<◌, ◌≡◌, refl, arith, [], ◌∷◌, ◌++◌, Bytes, length, All, true,
}
use dist_lfsck.Reader.{is_space, fgets, unread, c_string, skip_space, word, behind_word}

-- A character that is neither a newline nor a NUL.
abbrev pub IsPrintable : ℕ → Type 0
IsPrintable c = 32 ≤ c

-- A character of a word.
abbrev pub IsGraphic : ℕ → Type 0
IsGraphic c = 33 ≤ c

-- The file is read to its end: each call that is not at the end takes something.
pub unread-lt : (n c : ℕ) (s : Bytes) → length (unread (suc n) (c ∷ s)) ≤ length s
unfolding unread
unread-lt zero c s = ground arith
unread-lt (suc n) c [] = ground arith
unread-lt (suc n) c (d ∷ s) = ground (arith, unread-lt n d s)

pub length-fgets : (n : ℕ) (s : Bytes) → length (fgets n s) ≤ n
unfolding fgets
length-fgets zero s = omega arith
length-fgets (suc n) [] = omega arith
length-fgets (suc n) (c ∷ s) = ground (arith, length-fgets n s)

pub length-c_string : (s : Bytes) → length (c_string s) ≤ length s
unfolding c_string
length-c_string [] = omega arith
length-c_string (c ∷ s) = ground (arith, length-c_string s)

pub length-skip_space : (s : Bytes) → length (skip_space s) ≤ length s
unfolding skip_space
length-skip_space [] = omega arith
length-skip_space (c ∷ s) = ground (arith, length-skip_space s)

pub length-word : (s : Bytes) → length (word s) ≤ length s
unfolding word
length-word [] = omega arith
length-word (c ∷ s) = ground (arith, length-word s)

pub length-behind_word : (s : Bytes) → length (behind_word s) ≤ length s
unfolding behind_word
length-behind_word [] = omega arith
length-behind_word (c ∷ s) = ground (arith, length-behind_word s)

-- A line that fits is taken whole.
pub fgets-line :
    (n : ℕ) (l rest : Bytes)
    → All IsPrintable l
    → length l < n
    → fgets n (l ++ 10 ∷ rest) ≡ l ++ 10 ∷ []
unfolding fgets
fgets-line zero l rest p h = absurd (omega arith)
fgets-line (suc n) [] rest p h = refl
fgets-line (suc n) (c ∷ l) rest p h = ground (arith, fgets-line n l rest)

pub unread-line :
    (n : ℕ) (l rest : Bytes) → All IsPrintable l → length l < n → unread n (l ++ 10 ∷ rest) ≡ rest
unfolding unread
unread-line zero l rest p h = absurd (omega arith)
unread-line (suc n) [] rest p h = refl
unread-line (suc n) (c ∷ l) rest p h = ground (arith, unread-line n l rest)

-- Of a longer one, as much as fits.
pub fgets-long :
    (n : ℕ) (xs rest : Bytes) → All IsPrintable xs → length xs ≡ n → fgets n (xs ++ rest) ≡ xs
unfolding fgets
fgets-long zero [] rest p h = refl
fgets-long zero (c ∷ xs) rest p h = absurd (omega arith)
fgets-long (suc n) [] rest p h = absurd (omega arith)
fgets-long (suc n) (c ∷ xs) rest p h = ground (arith, fgets-long n xs rest)

pub unread-long :
    (n : ℕ) (xs rest : Bytes) → All IsPrintable xs → length xs ≡ n → unread n (xs ++ rest) ≡ rest
unfolding unread
unread-long zero [] rest p h = refl
unread-long zero (c ∷ xs) rest p h = absurd (omega arith)
unread-long (suc n) [] rest p h = absurd (omega arith)
unread-long (suc n) (c ∷ xs) rest p h = ground (arith, unread-long n xs rest)

-- Without a NUL the string is the whole line.
pub c_string-line : (l : Bytes) → All IsPrintable l → c_string (l ++ 10 ∷ []) ≡ l ++ 10 ∷ []
unfolding c_string
c_string-line [] p = refl
c_string-line (c ∷ l) p = ground (arith, c_string-line l)

-- A word goes up to the first space.
pub word-append :
    (xs rest : Bytes) (c : ℕ) → All IsGraphic xs → is_space c ≡ true → word (xs ++ c ∷ rest) ≡ xs
unfolding word
word-append [] rest c p h = rw h
word-append (x ∷ xs) rest c p h = ground (arith, word-append xs rest c)
