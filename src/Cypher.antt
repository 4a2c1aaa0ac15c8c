-- ===== src/Cypher.antt =====
-- The Cypher statements of the two scanners, one constructor for each format string, and the text
-- that `sprintf` leaves in the statement buffer.
pub mod FidText
pub mod Bounds
pub mod Reading
use dist_lfsck.Lustre.{LuFid}
use dist_lfsck.Prelude.{ℕ, [], ◌∷◌, ◌++◌, Bytes, codes}
use dist_lfsck.Text.{dec, hex}

pub data Label : Type 0 where
  mds oss : Label

pub data Kind : Type 0 where
  directory file : Kind

-- The properties that hold a FID: of an MDS node `lma` and `pfid`, of an OSS node `lma` and `fid`.
pub data FidField : Type 0 where
  lma pfid fid : FidField

pub data Stmt : Type 0 where
  create : Label → ℕ → Stmt
  set_type : Label → ℕ → Kind → Stmt
  set_fid : Label → ℕ → FidField → LuFid → Stmt
  set_ost_oid : ℕ → ℕ → Stmt
  set_f_oid : ℕ → ℕ → Stmt
  merge_mds_parent : Stmt
  merge_ost_child : Stmt
  merge_lov_parent : ℕ → Stmt

unfoldable pub label_text : Label → Bytes
label_text mds = codes "MDS"
label_text oss = codes "OSS"

unfoldable pub kind_text : Kind → Bytes
kind_text directory = codes "directory"
kind_text file = codes "file"

unfoldable pub field_text : FidField → Bytes
field_text lma = codes "lma"
field_text pfid = codes "pfid"
field_text fid = codes "fid"

-- "0x%llx:0x%x:0x%x".
unfoldable pub fid_text : LuFid → Bytes
fid_text f =
    codes "0x" ++ (hex f.f_seq ++ (codes ":0x" ++ (hex f.f_oid ++ (codes ":0x" ++ hex f.f_ver))))

-- "match(n:MDS) where n.inode_number=%d", and the same for OSS.
unfoldable pub match_node : Label → ℕ → Bytes
match_node l i = codes "match(n:" ++ (label_text l ++ (codes ") where n.inode_number=" ++ dec i))

unfoldable pub render : Stmt → Bytes
unfolding label_text kind_text field_text fid_text match_node
render (create l i) =
    codes "CREATE (n:" ++ (label_text l ++ (codes " {inode_number:" ++ (dec i ++ codes "});")))
render (set_type l i k) =
    match_node l i ++ (codes " set n.inode_type='" ++ (kind_text k ++ codes "';"))
render (set_fid l i p f) =
    match_node l i
    ++ (codes " set n." ++ (field_text p ++ (codes "='" ++ (fid_text f ++ codes "';"))))
render (set_ost_oid i oid) =
    match_node mds i ++ (codes " set n.ost_oid='" ++ (hex oid ++ codes "' ;"))
render (set_f_oid i oid) = match_node oss i ++ (codes " set n.f_oid='" ++ (hex oid ++ codes "';"))
render merge_mds_parent =
    codes "match (a:MDS),(b:MDS) where a.lma = b.pfid merge (a)-[:mds_parent_of]->(b);"
render merge_ost_child =
    codes "match (a:OSS),(b:MDS) where a.fid = b.lma merge (a)-[:OST_child_of]->(b);"
render (merge_lov_parent j) =
    codes "match(n:MDS),(m:OSS) where n.inode_number="
    ++ (dec j ++ codes " and n.ost_oid = m.f_oid merge (n)-[:LOV_parent_of]->(m);")
