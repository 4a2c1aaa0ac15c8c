-- ===== src/Mds/Described.antt =====
-- The scan of mds_src.c on a disk that is described by what Lustre has written to it.
use mathlib.Core.Path.{subst}
use dist_lfsck.Cypher.{Stmt, mds, create}
use dist_lfsck.Disk.Transfer.{Holds-read_at}
use dist_lfsck.Disk.{Memory, Holds}
use dist_lfsck.Flow.{exit}
use dist_lfsck.Mds.Attrs.{attr_kind, attr_value, attr_stmts, Shown, entry_stmts-attr}
use dist_lfsck.Mds.Inodes.{
  HasAttrs, Readable, type_stmts, inode_stmts, volume_stmts, mds_scan-sends,
}
use dist_lfsck.Mds.Statements.{entry_stmts, entries_stmts, EntryOk}
use dist_lfsck.Mds.{mds_scan}
use dist_lfsck.Prelude.{
  ℕ, zero, suc, ◌+◌, ◌<◌, ◌≤◌, ◌≡◌, refl, sym, ap, ◌∙◌, List, [], ◌∷◌, ◌++◌, map, flat_map, arith,
  length,
}
use dist_lfsck.Report.{statements}
use dist_lfsck.Scan.Bytes.{IsByteVolume}
use dist_lfsck.Scan.Found.{OnDisk-value, Found, same_magic, IsArea-Found, entries_say}
use dist_lfsck.Scan.Rounds.{after_read, buffer_after, rounds-le}
use dist_lfsck.Scan.Written.{
  Placed, entry_of, places, OnDisk, Inode, bare, node, on_disk, IsWritten, offsets_of,
}
use dist_lfsck.Scan.{Volume, inode_location, Scan, ifirst, value_location, value_of, rounds}
use dist_lfsck.Xattr.Encode.{Laid, entry_at-Laid, end_of}

-- What the inode says in the graph: its node, the node's type, and what its attributes say.
abbrev pub inode_says : ℕ → Inode attr_kind → List Stmt
inode_says i bare = []
inode_says i (node mode attrs) =
    create mds i
    ∷ (type_stmts i mode ++ flat_map (λ (a : Placed attr_kind). attr_stmts i a.attr) attrs)

entries_stmts-flat_map :
    (v : Volume) (i : ℕ) (m : Memory) (ps : List ℕ)
    → entries_stmts v i m ps ≡ flat_map (entry_stmts v i m) ps
unfolding flat_map
entries_stmts-flat_map v i m [] = refl
entries_stmts-flat_map v i m (p ∷ ps) =
    ap (λ l. entry_stmts v i m p ++ l) (entries_stmts-flat_map v i m ps)

module _ (v : Volume) (i : ℕ) where
  OnDisk-Shown :
      (m : Memory) (a : Placed attr_kind) (p : ℕ)
      → inode_location v i + v.inode_size ≤ v.image.size
      → OnDisk attr_kind v i m a
      → Laid m p (entry_of attr_kind a)
      → Shown v i m p a.attr
  unfolding value_of
  OnDisk-Shown m a p held d laid =
      let x = entry_of attr_kind a in
      let (inside, kept) = OnDisk-value attr_kind v i m a held d in
      record {
        named = laid.name;
        valued =
            subst (λ x. Holds (value_of v i m p x) 0 (attr_value a.attr))
              (sym (entry_at-Laid m p x laid))
              (Holds-read_at v.image (value_location v i m x) (length (attr_value a.attr)) _ 0
                (attr_value a.attr) (omega arith) inside kept);
        valid = d.valid;
      }

  Found-Readable :
      (mode : ℕ) (attrs : List (Placed attr_kind)) (m : Memory) (o : ℕ)
      → IsByteVolume v
      → v.inode_size ≤ v.stack
      → Found attr_kind v i mode attrs m o
      → Readable v i m (places attr_kind o attrs)
        × (inode_stmts v i m (places attr_kind o attrs) ≡ inode_says i (node mode attrs))
  Found-Readable mode attrs m o b room found =
      let (says, sound) =
        entries_say attr_kind v i m (entry_stmts v i m) (attr_stmts i) (EntryOk v i m)
          (λ a p d laid.
            let (says, link) =
              entry_stmts-attr v i m p a.attr b (OnDisk-Shown m a p found.inside d laid) in
            (
              says,
              (rw (entry_at-Laid m p (entry_of attr_kind a) laid) (omega (arith, d.inside)), link),
            ))
          attrs o found.values found.entries in
      (
        record {
          end = end_of o (map (entry_of attr_kind) attrs);
          chain = found.chain;
          short = found.short;
          sound = sound;
          lists = found.lists;
        },
        rw
            (
              found.marked,
              found.moded,
              entries_stmts-flat_map v i m (places attr_kind o attrs),
              says,
            )
            refl,
      )

  -- Whatever the buffer held before, what is read of a written inode says what the inode does.
  IsWritten-read :
      (x : Inode attr_kind) (buf : Memory)
      → IsByteVolume v
      → v.inode_size ≤ v.stack
      → IsWritten attr_kind v i x
      → (HasAttrs (after_read v i buf)
          → Readable v i (after_read v i buf) (offsets_of attr_kind v i x))
        × (inode_stmts v i (after_read v i buf) (offsets_of attr_kind v i x) ≡ inode_says i x)
  IsWritten-read bare buf b room w =
      let unmarked = rw (← same_magic attr_kind v i buf w.inside w.header) at w.describes in
      (λ marked. cc, rw unmarked refl)
  IsWritten-read (node mode attrs) buf b room w =
      let found = IsArea-Found attr_kind v i buf w.inside w.header mode attrs w.describes in
      let (readable, says) =
        Found-Readable mode attrs (after_read v i buf) (ifirst (on_disk attr_kind v i)) b room
          found in
      (λ marked. readable, says)

-- What the inodes say, round after round.
abbrev pub disk_says : (ℕ → Inode attr_kind) → ℕ → ℕ → List Stmt
disk_says inodes zero k = []
disk_says inodes (suc left) k = inode_says (k + 1) (inodes (k + 1)) ++ disk_says inodes left (suc k)

volume_stmts-disk_says :
    (v : Volume) (inodes : ℕ → Inode attr_kind) (left k : ℕ)
    → IsByteVolume v
    → v.inode_size ≤ v.stack
    → ((j : ℕ) → j < left + k → IsWritten attr_kind v (j + 1) (inodes (j + 1)))
    → volume_stmts v (λ i. offsets_of attr_kind v i (inodes i)) left k ≡ disk_says inodes left k
volume_stmts-disk_says v inodes zero k b room written = refl
volume_stmts-disk_says v inodes (suc left) k b room written =
    let (_, says) =
      IsWritten-read v (k + 1) (inodes (k + 1)) (buffer_after v k) b room
        (written k (omega arith)) in
    let later =
      volume_stmts-disk_says v inodes left (suc k) b room (λ j h. written j (omega arith)) in
    rw (says, later) refl

-- When every inode of the table stands as Lustre writes it where the scanner looks for it, with no
-- attribute area, or with one of LMAs, hard links, plain layouts or others, fewer than the tests
-- granted to the loop and with their values inside the inode, the first block of each directory can
-- be listed to its end, and the stack has room for an array of an inode's size, then the MDS scan
-- terminates with status 0 and has sent just what the inodes say, in order: the node, its type, its
-- FID, the first link's parent and the relation to it, and the low 32 bits of the first object's
-- id.
pub mds_scan-says :
    (v : Volume) (inodes : ℕ → Inode attr_kind)
    → IsByteVolume v
    → v.inode_size ≤ v.stack
    → ((k : ℕ) → k < v.total_inodes → IsWritten attr_kind v (k + 1) (inodes (k + 1)))
    → (t : Scan) × (mds_scan v ≡ exit t 0)
      × (statements t.events ≡ disk_says inodes (rounds v.total_inodes) 0)
mds_scan-says v inodes b room written =
    let (t, e, sent) =
      mds_scan-sends v (λ i. offsets_of attr_kind v i (inodes i)) b
        (λ k h.
          (IsWritten-read v (k + 1) (inodes (k + 1)) (buffer_after v k) b room (written k h)).0) in
    (
      t,
      e,
      sent
          ∙ volume_stmts-disk_says v inodes (rounds v.total_inodes) 0 b room
              (λ j h. written j (omega (arith, rounds-le v.total_inodes))),
    )
