-- ===== src/Reader.antt =====
-- The reader of the made-up graph: `main` of neo4j/graph_relationships.c, which takes two words
-- from each line of file2.txt. `fgets` and `sscanf` are those of C.
pub mod Chunks
pub mod Ends
pub mod Lines
pub mod Rows
pub mod Made
use dist_lfsck.Prelude.{
  ℕ, zero, suc, ◌+◌, ◌-◌, ◌||◌, ◌&&◌, Option, none, some, ltb, leb, ◌==◌, if◌then◌else◌, [], ◌∷◌,
  Bytes, Bool, true, false, length,
}

-- `isspace`.
abbrev pub is_space : ℕ → Bool
is_space c = c == b' ' || leb 9 c && leb c 13

-- `fgets` with room for n characters: those up to a newline, which it keeps.
unfoldable pub fgets : ℕ → Bytes → Bytes
fgets zero s = []
fgets (suc n) [] = []
fgets (suc n) (c ∷ s) = c ∷ (if c == 10 then [] else fgets n s)

-- What the file still holds behind them.
unfoldable pub unread : ℕ → Bytes → Bytes
unread zero s = s
unread (suc n) [] = []
unread (suc n) (c ∷ s) = if c == 10 then s else unread n s

-- The characters of a string, up to its NUL.
unfoldable pub c_string : Bytes → Bytes
c_string [] = []
c_string (c ∷ s) = if c == 0 then [] else c ∷ c_string s

unfoldable pub skip_space : Bytes → Bytes
skip_space [] = []
skip_space (c ∷ s) = if is_space c then skip_space s else c ∷ s

-- The word that %s takes, and what it leaves.
unfoldable pub word : Bytes → Bytes
word [] = []
word (c ∷ s) = if is_space c then [] else c ∷ word s

unfoldable pub behind_word : Bytes → Bytes
behind_word [] = []
behind_word (c ∷ s) = if is_space c then c ∷ s else behind_word s

-- The strings in `char a[20]` and `char b[75]`.
pub record Words : Type 0 where
  pub a : Bytes
  pub b : Bytes

abbrev pub sizeof_a : ℕ
sizeof_a = 20

abbrev pub sizeof_b : ℕ
sizeof_b = 75

abbrev pub sizeof_line : ℕ
sizeof_line = 68

-- How a piece of `main` ends: a word that does not fit its buffer with the NUL behind it is
-- written over what stands behind the buffer.
pub data Run : Type 0 where
  done : Words → Run
  overruns_a : Run
  overruns_b : Run
  unfinished : Run

infixl 5 ◌>>=◌
abbrev pub ◌>>=◌ : Run → (Words → Run) → Run
done w >>= f = f w
overruns_a >>= f = overruns_a
overruns_b >>= f = overruns_b
unfinished >>= f = unfinished

-- The second %s of `sscanf`, at the rest of the string: without a word it leaves b alone.
unfoldable pub scan_b : Bytes → Words → Run
scan_b [] w = done w
scan_b (c ∷ s) w =
    if ltb (length (word (c ∷ s))) sizeof_b
    then done (record w { b = word (c ∷ s) })
    else overruns_b

-- The first %s.
unfoldable pub scan_a : Bytes → Words → Run
unfolding scan_b
scan_a [] w = done w
scan_a (c ∷ s) w =
    if ltb (length (word (c ∷ s))) sizeof_a
    then scan_b (skip_space (behind_word (c ∷ s))) (record w { a = word (c ∷ s) })
    else overruns_a

-- `sscanf(line, "%s %s", a, b)`.
unfoldable pub sscanf : Bytes → Words → Run
unfolding scan_a
sscanf line w = scan_a (skip_space (c_string line)) w

-- `while (fgets(line, sizeof line, fPtr1) != NULL) sscanf(line, "%s %s", a, b);`
unfoldable pub read_lines : ℕ → Bytes → Words → Run
unfolding sscanf
read_lines zero s w = unfinished
read_lines (suc fuel) [] w = done w
read_lines (suc fuel) (c ∷ s) w = sscanf (fgets (sizeof_line - 1) (c ∷ s)) w >>= λ t.
    read_lines fuel (unread (sizeof_line - 1) (c ∷ s)) t

abbrev pub empty_words : Words
empty_words = record { a = []; b = [] }

-- `main`, on what `fopen` finds: without the file it exits with EXIT_FAILURE, `none` here. The
-- loop is granted a round more than the file has characters. What "%d" prints for `b` is the
-- array's address.
unfoldable pub main : Option Bytes → Option Run
unfolding read_lines
main none = none
main (some text) = some (read_lines (suc (length text)) text empty_words)
