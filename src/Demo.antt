-- ===== src/Demo.antt =====
-- The two programs that write a made-up graph: `neo4j/comb.c` and `neo4j/combine_oss.c`. They
-- draw their values by `rand()` behind `srand(100)`, which is a parameter here, and write the files
-- file1.txt and file2.txt.
pub mod Seed
use dist_lfsck.Flow.{Flow, next, exit}
use dist_lfsck.Prelude.{
  ℕ, zero, suc, ◌+◌, ◌/◌, ◌%◌, Bool, true, false, not, ◌==◌, if◌then◌else◌, List, [], ◌∷◌, ◌++◌,
  Bytes, codes,
}
use dist_lfsck.Text.{dec}

-- The values of an MDS node and of an OSS node.
pub record MdsRow : Type 0 where
  pub inode_number : ℕ
  pub lma : ℕ
  pub link_ea : ℕ
  pub lov_ea : ℕ

pub record OssRow : Type 0 where
  pub inode_number : ℕ
  pub lma : ℕ
  pub fid : ℕ

-- The lines, by their format strings.
pub data Line : Type 0 where
  create_underscore : MdsRow → Line
  create_mds : MdsRow → Line
  match_mds : MdsRow → Line
  create_child : ℕ → ℕ → Line
  create_oss : OssRow → Line

-- "%d{inode_number:%d,lma:%d,linkEA:%d" without the label, and what ends it.
abbrev mds_values : Bytes → Bytes → MdsRow → Bytes
mds_values label lov r =
    dec r.lma
    ++ (label
        ++ (codes "{inode_number:"
            ++ (dec r.inode_number
                ++ (codes ",lma:"
                    ++ (dec r.lma
                        ++ (codes ",linkEA:"
                            ++ (dec r.link_ea ++ (lov ++ (dec r.lov_ea ++ codes "}) \n")))))))))

unfoldable pub line_text : Line → Bytes
line_text (create_underscore r) = codes "CREATE (" ++ mds_values (codes ":MDS_") (codes ",lovEA:") r
line_text (create_mds r) = codes "CREATE (" ++ mds_values (codes ":MDS") (codes ",lovEA:") r
line_text (match_mds r) = codes "MATCH (" ++ mds_values (codes ":MDS ") (codes ", lovEA:") r
line_text (create_child lma link_ea) =
    codes "CREATE (" ++ (dec lma ++ (codes ")-[Child_DIR_of]->(" ++ (dec link_ea ++ codes ")\n")))
line_text (create_oss r) =
    codes "CREATE ("
    ++ (dec r.lma
        ++ (codes ":OSS{inode_number:"
            ++ (dec r.inode_number
                ++ (codes ",lma:"
                    ++ (dec r.lma ++ (codes ",FID:" ++ (dec r.fid ++ codes "})\n")))))))

-- The two files, the calls of `rand` so far, and what stands on the screen.
pub record Desk : Type 0 where
  pub file1 : List Line
  pub file2 : List Line
  pub draws : ℕ
  pub refused : Bool

-- What `fopen` finds: whether each file can be opened.
pub record Access : Type 0 where
  pub opens1 : Bool
  pub opens2 : Bool

module _ (rand : ℕ → ℕ) where
  -- The values that a round of comb.c makes up, of the next two calls of `rand`.
  unfoldable pub mds_row : ℕ → ℕ → MdsRow
  mds_row k i = record {
    inode_number = rand k;
    lma = 100 / i;
    link_ea = 200 / i;
    lov_ea = rand (k + 1) % 50;
  }

  -- The first loop of comb.c, from round `i` with `left` to go.
  unfoldable pub mds_nodes : ℕ → ℕ → Desk → Desk
  unfolding mds_row
  mds_nodes zero i s = s
  mds_nodes (suc left) i s =
      let r = mds_row s.draws i in
      mds_nodes left (i + 1) (record s {
        file1 = s.file1 ++ create_underscore r ∷ [];
        file2 = s.file2 ++ create_mds r ∷ [];
        draws = s.draws + 2;
      })

  -- The second loop of comb.c, over values of its own.
  unfoldable pub link_lines : ℕ → ℕ → Desk → Desk
  unfolding mds_row
  link_lines zero i s = s
  link_lines (suc left) i s =
      let r = mds_row s.draws i in
      let t = record s { draws = s.draws + 2 } in
      link_lines left (i + 1) (
        if not (r.link_ea == 0)
        then record t { file1 = t.file1 ++ match_mds r ∷ create_child r.lma r.link_ea ∷ [] }
        else t)

  -- `main` of comb.c: "w" empties a file that it opens.
  unfoldable pub comb : Access → Desk → Flow Desk
  unfolding mds_nodes link_lines
  comb a s =
      let t : Desk = record {
        file1 = if a.opens1 then [] else s.file1;
        file2 = if a.opens2 then [] else s.file2;
        draws = 0;
        refused = s.refused;
      } in
      if not a.opens1
      then exit (record t { refused = true }) 1
      else if not a.opens2
      then exit (record t { refused = true }) 1
      else next (link_lines 10 1 (mds_nodes 10 1 t))

  unfoldable pub oss_row : ℕ → ℕ → OssRow
  oss_row k i = record { inode_number = rand k; lma = 100 / i; fid = rand (k + 1) % 50 }

  -- The loop of combine_oss.c.
  unfoldable pub oss_nodes : ℕ → ℕ → Desk → Desk
  unfolding oss_row
  oss_nodes zero i s = s
  oss_nodes (suc left) i s =
      let r = oss_row s.draws i in
      oss_nodes left (i + 1) (record s {
        file1 = s.file1 ++ create_oss r ∷ [];
        file2 = s.file2 ++ create_oss r ∷ [];
        draws = s.draws + 2;
      })

  -- `main` of combine_oss.c: "a" keeps what a file holds.
  unfoldable pub combine_oss : Access → Desk → Flow Desk
  unfolding oss_nodes
  combine_oss a s =
      let t = record s { draws = 0 } in
      if not a.opens1
      then exit (record t { refused = true }) 1
      else if not a.opens2
      then exit (record t { refused = true }) 1
      else next (oss_nodes 10 1 t)
