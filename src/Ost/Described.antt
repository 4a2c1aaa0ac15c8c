-- ===== src/Ost/Described.antt =====
-- The scan of ost_src.c on a disk that is described by what Lustre has written to it.
use dist_lfsck.Cypher.{Stmt, oss, create}
use dist_lfsck.Disk.{Memory, load}
use dist_lfsck.Flow.{exit}
use dist_lfsck.Ost.Attrs.{attr_kind, attr_stmts, Shown, entry_stmts-attr}
use dist_lfsck.Ost.Inodes.{
  Readable, type_stmts, inode_stmts, volume_stmts, lov_stmts, ost_scan-sends,
}
use dist_lfsck.Ost.Statements.{entry_stmts, entries_stmts, OnDevice}
use dist_lfsck.Ost.{mds_total_inodes, ost_scan}
use dist_lfsck.Prelude.{
  ℕ, zero, suc, ◌+◌, ◌<◌, ◌≤◌, ◌≡◌, refl, ap, ◌∙◌, true, ◌==◌, List, [], ◌∷◌, ◌++◌, map, flat_map,
  arith,
}
use dist_lfsck.Report.{statements}
use dist_lfsck.Scan.Found.{OnDisk-value, Found, same_magic, IsArea-Found, entries_say}
use dist_lfsck.Scan.Rounds.{after_read, buffer_after, rounds-le}
use dist_lfsck.Scan.Written.{
  Placed, entry_of, places, OnDisk, Inode, bare, node, on_disk, IsWritten, offsets_of,
}
use dist_lfsck.Scan.{Volume, inode_location, Scan, attr_magic, ihdr, ifirst, rounds}
use dist_lfsck.Xattr.Encode.{Laid, entry_at-Laid, end_of}

-- What the inode says in the graph: its node, the node's type, and what its attributes say.
abbrev pub inode_says : ℕ → Inode attr_kind → List Stmt
inode_says i bare = []
inode_says i (node mode attrs) =
    create oss i
    ∷ (type_stmts i mode ++ flat_map (λ (a : Placed attr_kind). attr_stmts i a.attr) attrs)

entries_stmts-flat_map :
    (v : Volume) (i : ℕ) (m : Memory) (ps : List ℕ)
    → entries_stmts v i m ps ≡ flat_map (entry_stmts v i m) ps
unfolding flat_map
entries_stmts-flat_map v i m [] = refl
entries_stmts-flat_map v i m (p ∷ ps) =
    ap (λ l. entry_stmts v i m p ++ l) (entries_stmts-flat_map v i m ps)

module _ (v : Volume) (i : ℕ) where
  OnDisk-Shown :
      (m : Memory) (a : Placed attr_kind) (p : ℕ)
      → inode_location v i + v.inode_size ≤ v.image.size
      → OnDisk attr_kind v i m a
      → Laid m p (entry_of attr_kind a)
      → Shown v i m p a.attr
  OnDisk-Shown m a p held d laid =
      let (inside, kept) = OnDisk-value attr_kind v i m a held d in
      let same = entry_at-Laid m p (entry_of attr_kind a) laid in
      record { named = laid.name; valued = rw same kept; inside = rw same inside; valid = d.valid }

  Found-Readable :
      (mode : ℕ) (attrs : List (Placed attr_kind)) (m : Memory) (o : ℕ)
      → Found attr_kind v i mode attrs m o
      → Readable v i m (places attr_kind o attrs)
        × (inode_stmts v i m (places attr_kind o attrs) ≡ inode_says i (node mode attrs))
  Found-Readable mode attrs m o found =
      let (says, values) =
        entries_say attr_kind v i m (entry_stmts v i m) (attr_stmts i) (OnDevice v i m)
          (λ a p d laid. entry_stmts-attr v i m p a.attr (OnDisk-Shown m a p found.inside d laid))
          attrs o found.values found.entries in
      (
        record {
          end = end_of o (map (entry_of attr_kind) attrs);
          chain = found.chain;
          short = found.short;
          values = values;
          lists = found.lists;
        },
        rw
            (
              found.marked,
              found.moded,
              entries_stmts-flat_map v i m (places attr_kind o attrs),
              says,
            )
            refl,
      )

  -- Whatever the buffer held before, what is read of a written inode says what the inode does.
  IsWritten-read :
      (x : Inode attr_kind) (buf : Memory)
      → IsWritten attr_kind v i x
      → ((load 4 (after_read v i buf) (ihdr (after_read v i buf)) == attr_magic) ≡ true
          → Readable v i (after_read v i buf) (offsets_of attr_kind v i x))
        × (inode_stmts v i (after_read v i buf) (offsets_of attr_kind v i x) ≡ inode_says i x)
  IsWritten-read bare buf w =
      let unmarked = rw (← same_magic attr_kind v i buf w.inside w.header) at w.describes in
      (λ marked. cc, rw unmarked refl)
  IsWritten-read (node mode attrs) buf w =
      let found = IsArea-Found attr_kind v i buf w.inside w.header mode attrs w.describes in
      let (readable, says) =
        Found-Readable mode attrs (after_read v i buf) (ifirst (on_disk attr_kind v i)) found in
      (λ marked. readable, says)

-- What the inodes say, round after round.
abbrev pub disk_says : (ℕ → Inode attr_kind) → ℕ → ℕ → List Stmt
disk_says inodes zero k = []
disk_says inodes (suc left) k = inode_says (k + 1) (inodes (k + 1)) ++ disk_says inodes left (suc k)

volume_stmts-disk_says :
    (v : Volume) (inodes : ℕ → Inode attr_kind) (left k : ℕ)
    → ((j : ℕ) → j < left + k → IsWritten attr_kind v (j + 1) (inodes (j + 1)))
    → volume_stmts v (λ i. offsets_of attr_kind v i (inodes i)) left k ≡ disk_says inodes left k
volume_stmts-disk_says v inodes zero k written = refl
volume_stmts-disk_says v inodes (suc left) k written =
    let (_, says) =
      IsWritten-read v (k + 1) (inodes (k + 1)) (buffer_after v k) (written k (omega arith)) in
    let later = volume_stmts-disk_says v inodes left (suc k) (λ j h. written j (omega arith)) in
    rw (says, later) refl

-- When every inode of the table stands as Lustre writes it where the scanner looks for it, with no
-- attribute area, or with one of LMAs, filter FIDs or others, fewer than the tests granted to the
-- loop and with their values inside the inode, and the first block of each directory can be listed
-- to its end, then the OST scan terminates with status 0 and has sent just what the inodes say, in
-- order: the node, its type, its FID and the object id in it, the FID of its file and the relation
-- to it; and then the relations of the MDS nodes 1 to 700.
pub ost_scan-says :
    (v : Volume) (inodes : ℕ → Inode attr_kind)
    → ((k : ℕ) → k < v.total_inodes → IsWritten attr_kind v (k + 1) (inodes (k + 1)))
    → (t : Scan) × (ost_scan v ≡ exit t 0)
      × (statements t.events
          ≡ disk_says inodes (rounds v.total_inodes) 0 ++ lov_stmts mds_total_inodes 1)
ost_scan-says v inodes written =
    let (t, e, sent) =
      ost_scan-sends v (λ i. offsets_of attr_kind v i (inodes i))
        (λ k h. (IsWritten-read v (k + 1) (inodes (k + 1)) (buffer_after v k) (written k h)).0) in
    let says =
      volume_stmts-disk_says v inodes (rounds v.total_inodes) 0
        (λ j h. written j (omega (arith, rounds-le v.total_inodes))) in
    (t, e, sent ∙ ap (λ l. l ++ lov_stmts mds_total_inodes 1) says)
