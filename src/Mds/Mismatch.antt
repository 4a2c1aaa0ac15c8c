-- ===== src/Mds/Mismatch.antt =====
-- The branch of mds_src.c for a link EA with a wrong magic number.
use dist_lfsck.Cypher.{Stmt, mds, create}
use dist_lfsck.Disk.{Memory, load}
use dist_lfsck.Flow.{exit, ◌>>=◌}
use dist_lfsck.Lustre.{link_ea_header_at, link_ea_magic}
use dist_lfsck.Mds.Inodes.{
  Ready, inode_stmts, volume_stmts, mds_inode-Round, type_stmts, HasAttrs, mds_type-Adds,
}
use dist_lfsck.Mds.Statements.{value_at, EntryOk, entries_stmts, each-mds_entry-Adds}
use dist_lfsck.Mds.{lma_part, link_part, mds_entry, mds_attrs, mds_inode, mds_finish, mds_scan}
use dist_lfsck.Prelude.{
  ltb, ℕ, suc, ◌-◌, ◌+◌, ◌<◌, ◌≡◌, ◌≢◌, refl, sym, ap, ◌∙◌, arith, true, false, List, [], ◌∷◌, ◌++◌,
  codes, append-nil, ◌==◌, All, length,
}
use dist_lfsck.Report.{statements, entry_name, link_mismatch, inode_header}
use dist_lfsck.Scan.Adds.{Adds, Adds-trans, Adds-print, Adds-run, Adds-count}
use dist_lfsck.Scan.Bytes.{IsByteVolume}
use dist_lfsck.Scan.Directory.Quiet.{ListsBlock}
use dist_lfsck.Scan.Rounds.{
  for_inodes, for_inodes-sends, for_inodes-split, buffer_after, after_read,
}
use dist_lfsck.Scan.Start.{started}
use mathlib.Core.Path.{subst}
use dist_lfsck.Scan.{rounds, Volume, Scan, print, run, i_mode, ifirst, is_dir, read_inode}
use dist_lfsck.Xattr.Walk.{Reaches, walk_stops}
use dist_lfsck.Xattr.{begins, entry_at, walk}

link_not_lma :
    (m : Memory) (o : ℕ) → begins m o (codes "link") ≡ true → begins m o (codes "lma") ≡ false
unfolding begins
link_not_lma m o h = ground arith

-- The entry at `p` is a link EA without its magic number; the stack has room for it.
pub record Mismatch (v : Volume) (i : ℕ) (m : Memory) (p : ℕ) : Type 0 where
  pub room : (entry_at m p).e_value_size < v.stack
  pub is_link : begins m (p + 16) (codes "link") ≡ true
  pub wrong : load 4 (value_at v i m p) 0 ≢ link_ea_magic

mds_entry-Mismatch :
    (v : Volume) (i : ℕ) (m : Memory) (p : ℕ) (s : Scan)
    → Mismatch v i m p
    → (t : Scan) × (mds_entry v i m p s ≡ exit t 0) × Adds [] s t
unfolding mds_entry lma_part link_part link_ea_header_at
mds_entry-Mismatch v i m p s h =
    let named = print (entry_name (entry_at m p).e_name) s in
    let room : ltb (entry_at m p).e_value_size v.stack ≡ true = ground (arith, h.room) in
    let other = link_not_lma m (p + 16) h.is_link in
    let differs : (load 4 (value_at v i m p) 0 == link_ea_magic) ≡ false =
      ground (arith, h.wrong) in
    (
      print link_mismatch named,
      rw (room, other, h.is_link, differs),
      Adds-trans [] [] (Adds-print _ s) (Adds-print link_mismatch named),
    )

-- The buffer `m` of round `i` can be read up to the entry at `p`, which is a mismatch: the
-- attributes in front of it stand at the offsets `ps` and can be read, and a directory's listing
-- ends. What stands behind the entry does not matter.
pub record Broken (v : Volume) (i : ℕ) (m : Memory) (ps : List ℕ) (p : ℕ) : Type 0 where
  pub marked : HasAttrs m
  pub reaches : Reaches m (ifirst m) ps p
  pub short : length ps < v.fuel
  pub sound : All (EntryOk v i m) ps
  pub mismatch : Mismatch v i m p
  pub lists : is_dir (i_mode m) ≡ true → ListsBlock v i m

-- What a round sends before it comes to the mismatch.
abbrev pub broken_stmts : Volume → ℕ → Memory → List ℕ → List Stmt
broken_stmts v i m ps = create mds i ∷ (type_stmts i (i_mode m) ++ entries_stmts v i m ps)

walk-Broken :
    (v : Volume) (i : ℕ) (m : Memory) (ps : List ℕ) (p : ℕ) (s : Scan)
    → IsByteVolume v
    → Broken v i m ps p
    → (t : Scan) × (walk v.fuel m (mds_entry v i m) (ifirst m) s ≡ exit t 0)
      × Adds (entries_stmts v i m ps) s t
walk-Broken v i m ps p s b r =
    let (t, e, a) = each-mds_entry-Adds v i m ps s b r.sound in
    let (u, f, c) = mds_entry-Mismatch v i m p t r.mismatch in
    (
      u,
      walk_stops m (mds_entry v i m) ps v.fuel (ifirst m) p s r.short r.reaches
            (λ w. let (x, g, d) = mds_entry-Mismatch v i m p w r.mismatch in (x, 0, g))
          ∙ rw e f,
      rw append-nil at (Adds-trans (entries_stmts v i m ps) [] a c),
    )

-- A round that comes to a mismatch ends the program with status 0, after the statements of the
-- entries before it.
pub mds_inode_mismatch :
    (v : Volume) (i : ℕ) (s : Scan) (ps : List ℕ) (p : ℕ)
    → IsByteVolume v
    → Broken v i (after_read v i s.cur_inode) ps p
    → (t : Scan) × (mds_inode v i s ≡ exit t 0)
      × (statements t.events
          ≡ statements s.events ++ broken_stmts v i (after_read v i s.cur_inode) ps)
unfolding mds_inode mds_attrs
mds_inode_mismatch v i s ps p b r =
    let m = after_read v i s.cur_inode in
    let t = read_inode v i s in
    let shown = print (inode_header i) t in
    let made = run (create mds i) shown in
    let (u, e, a) = mds_type-Adds v i made r.lists in
    let counted = record u { entry_count = u.entry_count + 1 } in
    let (w, f, c) = walk-Broken v i m ps p counted b r in
    let before =
      Adds-trans _ _
        (Adds-trans [] _ (Adds-print (inode_header i) t) (Adds-run (create mds i) shown)) a in
    (
      w,
      rw (r.marked, e) (ap (λ n. walk v.fuel n (mds_entry v i n) (ifirst n) counted) a.buffer ∙ f),
      (Adds-trans _ _ (Adds-count _ counted before refl refl) c).sent,
    )

-- When the first inodes can be read to their ends, and the next one comes, behind entries that can
-- be read, fewer than the tests granted to the loop, to a link EA with a wrong magic number, the
-- stack has room for its value, and the first block can be listed to its end if the inode is a
-- directory, then the MDS scan ends with status 0, whatever stands behind that entry. It has sent
-- the statements of the inodes and entries before the mismatch, and does not look at the inodes
-- behind it.
pub mds_scan_stops :
    (v : Volume) (offsets : ℕ → List ℕ) (k : ℕ) (ps : List ℕ) (p : ℕ)
    → IsByteVolume v
    → k < rounds v.total_inodes
    → ((j : ℕ) → j < k → Ready v offsets (j + 1) (buffer_after v (suc j)))
    → Broken v (k + 1) (buffer_after v (suc k)) ps p
    → (t : Scan) × (mds_scan v ≡ exit t 0)
      × (statements t.events
          ≡ volume_stmts v offsets k 0 ++ broken_stmts v (k + 1) (buffer_after v (suc k)) ps)
unfolding mds_scan for_inodes
mds_scan_stops v offsets k ps p b inside ok broken =
    let start = started v.uninit.cur_inode in
    let (t, e, sent, last) =
      for_inodes-sends v (mds_inode v) (λ i m. inode_stmts v i m (offsets i)) (Ready v offsets)
        (λ i s r. mds_inode-Round v offsets i s b r) k 0 k start ok (omega arith) refl in
    let at : after_read v (k + 1) t.cur_inode ≡ buffer_after v (suc k) =
      ap (after_read v (k + 1)) (last ∙ ap (buffer_after v) (omega arith)) in
    let (u, f, ends) =
      mds_inode_mismatch v (k + 1) t ps p b
        (subst (λ m. Broken v (k + 1) m ps p) (sym at) broken) in
    let more = rounds v.total_inodes - k - 1 in
    let all : rounds v.total_inodes ≡ k + suc more = omega arith in
    let number : 1 + k ≡ k + 1 = omega arith in
    let loop : for_inodes (mds_inode v) (rounds v.total_inodes) 1 start ≡ exit u 0 =
      ap (λ n. for_inodes (mds_inode v) n 1 start) all
      ∙ for_inodes-split (mds_inode v) k (suc more) 1 start
      ∙ ap (λ r. r >>= for_inodes (mds_inode v) (suc more) (1 + k)) e
      ∙ ap (λ n. mds_inode v n t >>= λ w. for_inodes (mds_inode v) more (n + 1) w) number
      ∙ ap (λ r. r >>= λ w. for_inodes (mds_inode v) more (k + 1 + 1) w) f in
    (
      u,
      ap (λ r. r >>= mds_finish v) loop,
      ends
          ∙ ap (λ l. l ++ broken_stmts v (k + 1) (after_read v (k + 1) t.cur_inode) ps) sent
          ∙ ap (λ m. volume_stmts v offsets k 0 ++ broken_stmts v (k + 1) m ps) at,
    )
