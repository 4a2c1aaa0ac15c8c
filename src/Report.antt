-- ===== src/Report.antt =====
-- What a scanner does that can be seen from outside: the lines that it prints, by their format
-- string with the values put in, and the statements that it hands to `neo4j_run`.
use dist_lfsck.Cypher.{Stmt}
use dist_lfsck.Lustre.{LuFid, LovUserMd, LovUserOstData, FilterFid}
use dist_lfsck.Prelude.{ℕ, List, [], ◌∷◌, ◌++◌, Bytes, ◌≡◌, refl}

-- A `%s` is kept as the place where the printed text starts.
pub data Line : Type 0 where
  open_failed : Line
  not_ext4 : Line
  connection_failed : Line
  inode_size_is : ℕ → Line
  inode_header : ℕ → Line
  directory_found : ℕ → Line
  dir_entry : ℕ → ℕ → ℕ → Line
  huge_directory : Line
  file_found : Line
  entry_name : Bytes → Line
  lma_fid : LuFid → Line
  link_matched : ℕ → Line
  parent_fid : LuFid → Line
  link_mismatch : Line
  lov_metadata : LovUserMd → Line
  ost_object : ℕ → LovUserOstData → Line
  filter_fid : FilterFid → Line
  counts : ℕ → ℕ → ℕ → ℕ → Line
  xattr_counts : ℕ → ℕ → Line

pub data Event : Type 0 where
  printed : Line → Event
  ran : Stmt → Event

-- The statements among the events, in order.
abbrev pub statements : List Event → List Stmt
statements [] = []
statements (printed l ∷ es) = statements es
statements (ran s ∷ es) = s ∷ statements es

pub statements-append :
    (xs ys : List Event) → statements (xs ++ ys) ≡ statements xs ++ statements ys
statements-append [] ys = refl
statements-append (printed l ∷ xs) ys = statements-append xs ys
statements-append (ran s ∷ xs) ys = λ i. s ∷ statements-append xs ys i
