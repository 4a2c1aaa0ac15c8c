-- ===== src/Demo/Seed.antt =====
-- The files of the two programs together.
use dist_lfsck.Demo.{
  MdsRow, OssRow, Line, create_underscore, create_mds, match_mds, create_child, create_oss, Desk,
  Access, mds_row, mds_nodes, link_lines, comb, oss_row, oss_nodes, combine_oss,
}
use dist_lfsck.Flow.{next, ◌>>=◌}
use dist_lfsck.Prelude.{ℕ, zero, suc, ◌+◌, ◌≡◌, refl, true, List, [], ◌∷◌, ◌++◌, map}

-- The rows of rounds i, i + 1, ..., where the k-th call of `rand` is the next one.
abbrev pub rows : (ℕ → ℕ) → ℕ → ℕ → ℕ → List MdsRow
rows rand zero i k = []
rows rand (suc left) i k = mds_row rand k i ∷ rows rand left (i + 1) (k + 2)

-- The object of a file: its inode number and its LMA, and as its FID the file's LOV EA.
abbrev pub object_of : MdsRow → OssRow
object_of r = record { inode_number = r.inode_number; lma = r.lma; fid = r.lov_ea }

-- The two lines of an MDS node with a link EA.
abbrev pub links : List MdsRow → List Line
links [] = []
links (r ∷ rs) = match_mds r ∷ create_child r.lma r.link_ea ∷ links rs

abbrev pub open_both : Access
open_both = record { opens1 = true; opens2 = true }

-- What the two files hold when both programs have run, whatever the desk held before.
abbrev pub MadeFiles : (ℕ → ℕ) → Desk → Type 0
MadeFiles rand s =
    (comb rand open_both s >>= combine_oss rand open_both)
    ≡ next (record {
      file1 =
          map create_underscore (rows rand 10 1 0)
          ++ (links (rows rand 10 1 20) ++ map create_oss (map object_of (rows rand 10 1 0)));
      file2 =
          map create_mds (rows rand 10 1 0) ++ map create_oss (map object_of (rows rand 10 1 0));
      draws = 20;
      refused = s.refused;
    })

-- When both files can be opened, comb.c and then combine_oss.c, which seed `rand` alike, leave in
-- file2 ten MDS nodes, and for each an object with its inode number and its LMA whose FID is its
-- LOV EA. In file1 they leave these nodes under the label MDS_, then the lines of the relations,
-- for ten rows that are drawn anew, and then the same objects. Older lines are gone.
pub made_files : (rand : ℕ → ℕ) (s : Desk) → MadeFiles rand s
unfolding mds_row comb mds_nodes link_lines oss_row combine_oss oss_nodes
made_files rand s = refl
