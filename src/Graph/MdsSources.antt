-- ===== src/Graph/MdsSources.antt =====
-- What the properties of the MDS nodes come from: the attributes on the metadata server's disk.
use dist_lfsck.Cypher.{
  Label, mds, lma, pfid, fid, Stmt, set_type, set_fid, merge_mds_parent, directory, file, fid_text,
}
use dist_lfsck.Disk.{Memory, load}
use dist_lfsck.Graph.Attributes.{Attribute}
use dist_lfsck.Graph.Laws.{Written}
use dist_lfsck.Graph.Order.{Written-left, Written-right}
use dist_lfsck.Graph.Writes.{
  writes-set_fid, writes-set_ost_oid, writes-set_type, Written-append, Written-cons, Written-nil,
  Written-if, rounds_of, Written-rounds_of,
}
use dist_lfsck.Graph.{Key, type_key, ost_oid_key, f_oid_key, fid_key}
use dist_lfsck.Lustre.{lu_fid_at, lu_fid_be_at}
use dist_lfsck.Mds.Inodes.{HasAttrs, type_stmts, inode_stmts, volume_stmts}
use dist_lfsck.Mds.Statements.{
  value_at, lma_stmts, link_stmts, lov_stmts, entry_stmts, entries_stmts,
}
use dist_lfsck.Prelude.{
  ℕ, zero, suc, ◌+◌, ◌≡◌, refl, ap, sym, ◌≢◌, inl, inr, true, ◌==◌, arith, ==_refl, append_assoc,
  some, List, [], ◌∷◌, ◌++◌, Bytes, Memᴰ, codes, Bool-cases,
}
use dist_lfsck.Scan.Rounds.{buffer_after}
use dist_lfsck.Scan.{Volume, rounds, ihdr, attr_magic, i_mode, is_dir, is_reg}
use dist_lfsck.Text.{hex}
use dist_lfsck.Xattr.{begins}

-- What the entry at offset `p` of an inode's buffer says of the property, as a text.
abbrev pub Says : Volume → ℕ → Memory → ℕ → Key → Bytes → Type 0
Says v i m p (fid_key lma) u =
    (begins m (p + 16) (codes "lma") ≡ true) × (fid_text (lu_fid_at (value_at v i m p) 8) ≡ u)
Says v i m p (fid_key pfid) u =
    (begins m (p + 16) (codes "link") ≡ true) × (fid_text (lu_fid_be_at (value_at v i m p) 26) ≡ u)
Says v i m p ost_oid_key u =
    (begins m (p + 16) (codes "lov") ≡ true) × (hex (load 4 (value_at v i m p) 32) ≡ u)
Says v i m p k u = ⊥

module _ (v : Volume) (i : ℕ) (m : Memory) (l : Label) (j : ℕ) (k : Key) (u : Bytes) where
  lma-Says : (p : ℕ) → Written (lma_stmts v i m p) l j k u → (l ≡ mds) × (j ≡ i) × Says v i m p k u
  lma-Says p h =
      let (is_lma, w) = Written-if (begins m (p + 16) (codes "lma")) _ l j k u h in
      elim (Written-cons _ [] l j k u w) [
        | inr rest ↦ absurd (Written-nil l j k u rest)
        | inl set ↦
            let (a, b, c, d) = writes-set_fid mds i lma _ l j k u set in (a, b, rw c (is_lma, d))
      ]

  link-Says :
      (p : ℕ) → Written (link_stmts v i m p) l j k u → (l ≡ mds) × (j ≡ i) × Says v i m p k u
  link-Says p h =
      let (is_link, w) = Written-if (begins m (p + 16) (codes "link")) _ l j k u h in
      elim (Written-cons _ (merge_mds_parent ∷ []) l j k u w) [
        | inl set ↦
            let (a, b, c, d) = writes-set_fid mds i pfid _ l j k u set in (a, b, rw c (is_link, d))
        | inr rest ↦ elim (Written-cons merge_mds_parent [] l j k u rest) [
          | inl merged ↦ (cc)
          | inr none_left ↦ absurd (Written-nil l j k u none_left)
        ]
      ]

  lov-Says : (p : ℕ) → Written (lov_stmts v i m p) l j k u → (l ≡ mds) × (j ≡ i) × Says v i m p k u
  lov-Says p h =
      let (is_lov, w) = Written-if (begins m (p + 16) (codes "lov")) _ l j k u h in
      elim (Written-cons _ [] l j k u w) [
        | inr rest ↦ absurd (Written-nil l j k u rest)
        | inl set ↦
            let (a, b, c, d) = writes-set_ost_oid i _ l j k u set in (a, b, rw c (is_lov, d))
      ]

  entry-Says :
      (p : ℕ) → Written (entry_stmts v i m p) l j k u → (l ≡ mds) × (j ≡ i) × Says v i m p k u
  entry-Says p h = elim (Written-append (lma_stmts v i m p) _ l j k u h) [
    | inl w ↦ lma-Says p w
    | inr more ↦ elim (Written-append (link_stmts v i m p) _ l j k u more) [
      | inl w ↦ link-Says p w
      | inr w ↦ lov-Says p w
    ]
  ]

  entries-Says :
      (ps : List ℕ)
      → Written (entries_stmts v i m ps) l j k u
      → (l ≡ mds) × (j ≡ i) × (p : ℕ) × Memᴰ p ps × Says v i m p k u
  entries-Says [] h = absurd (Written-nil l j k u h)
  entries-Says (p ∷ ps) h = elim (Written-append (entry_stmts v i m p) _ l j k u h) [
    | inl w ↦ let (a, b, c) = entry-Says p w in (a, b, p, Memᴰ.head refl, c)
    | inr more ↦ let (a, b, q, n, c) = entries-Says ps more in (a, b, q, Memᴰ.tail n, c)
  ]

  type-Says : Written (type_stmts i (i_mode m)) l j k u → k ≡ type_key
  type-Says h = elim (Bool-cases (is_dir (i_mode m))) [
    | inl dir ↦ elim (Written-cons _ [] l j k u (rw dir at h)) [
      | inl w ↦ writes-set_type mds i directory l j k u w
      | inr rest ↦ absurd (Written-nil l j k u rest)
    ]
    | inr other ↦
        let (is_file, w) =
          Written-if (is_reg (i_mode m)) (set_type mds i file ∷ []) l j k u (rw other at h) in
        elim (Written-cons _ [] l j k u w) [
          | inl set ↦ writes-set_type mds i file l j k u set
          | inr rest ↦ absurd (Written-nil l j k u rest)
        ]
  ]

  pub inode-Says :
      (ps : List ℕ)
      → k ≢ type_key
      → Written (inode_stmts v i m ps) l j k u
      → HasAttrs m × (l ≡ mds) × (j ≡ i) × (p : ℕ) × Memᴰ p ps × Says v i m p k u
  inode-Says ps other h =
      let (marked, w) = Written-if (load 4 m (ihdr m) == attr_magic) _ l j k u h in
      elim (Written-cons _ _ l j k u w) [
        | inl created ↦ (cc)
        | inr more ↦ elim (Written-append (type_stmts i (i_mode m)) _ l j k u more) [
          | inl typed ↦ absurd (other (type-Says typed))
          | inr set ↦ let (a, b, p, n, c) = entries-Says ps set in (marked, a, b, p, n, c)
        ]
      ]

-- The property of node `i` stands in an attribute of inode `i` on the disk.
abbrev pub OnMds : Volume → (ℕ → List ℕ) → ℕ → Key → Bytes → Type 0
OnMds v offsets i k u = Attribute v offsets i (λ r m p. Says v r m p k u)

pub volume-rounds_of :
    (v : Volume) (offsets : ℕ → List ℕ) (left k : ℕ)
    → volume_stmts v offsets left k
      ≡ rounds_of (λ r. inode_stmts v (r + 1) (buffer_after v (suc r)) (offsets (r + 1))) left k
volume-rounds_of v offsets zero k = refl
volume-rounds_of v offsets (suc left) k =
    ap (λ ss. inode_stmts v (k + 1) (buffer_after v (suc k)) (offsets (k + 1)) ++ ss)
      (volume-rounds_of v offsets left (suc k))

-- The scan sets the property of an MDS node to what an attribute of that inode says.
pub volume-OnMds :
    (v : Volume) (offsets : ℕ → List ℕ) (l : Label) (j : ℕ) (k : Key) (u : Bytes)
    → k ≢ type_key
    → Written (volume_stmts v offsets (rounds v.total_inodes) 0) l j k u
    → (l ≡ mds) × OnMds v offsets j k u
volume-OnMds v offsets l j k u other h =
    let (r, _, below, w) =
      Written-rounds_of _ (rounds v.total_inodes) 0 l j k u
        (rw (volume-rounds_of v offsets (rounds v.total_inodes) 0) at h) in
    let (marked, label, number, p, listed, says) =
      inode-Says v (r + 1) (buffer_after v (suc r)) l j k u (offsets (r + 1)) other w in
    (
      label,
      record {
        round = r;
        inside = omega (arith, below);
        number = number;
        marked = marked;
        entry = p;
        listed = listed;
        says = says;
      },
    )

module _ (v : Volume) (i : ℕ) (m : Memory) where
  entry-Written :
      (p : ℕ) (k : Key) (u : Bytes) → Says v i m p k u → Written (entry_stmts v i m p) mds i k u
  entry-Written p (fid_key lma) u (is_lma, e) =
      Written-left mds i (fid_key lma) u (lma_stmts v i m p) _
        (rw is_lma (_, Memᴰ.head refl, rw (==_refl i) (ap some e)))
  entry-Written p (fid_key pfid) u (is_link, e) =
      Written-right mds i (fid_key pfid) u (lma_stmts v i m p) _ (
        Written-left mds i (fid_key pfid) u (link_stmts v i m p) _
          (rw is_link (_, Memᴰ.head refl, rw (==_refl i) (ap some e))))
  entry-Written p ost_oid_key u (is_lov, e) =
      Written-right mds i ost_oid_key u (lma_stmts v i m p) _ (
        Written-right mds i ost_oid_key u (link_stmts v i m p) _
          (rw is_lov (_, Memᴰ.head refl, rw (==_refl i) (ap some e))))
  entry-Written p (fid_key fid) u h = elim h [ ]
  entry-Written p f_oid_key u h = elim h [ ]
  entry-Written p type_key u h = elim h [ ]

  -- What an entry says is set by the entries' statements.
  pub entries-Written :
      (ps : List ℕ) (p : ℕ) (k : Key) (u : Bytes)
      → Memᴰ p ps
      → Says v i m p k u
      → Written (entries_stmts v i m ps) mds i k u
  entries-Written [] p k u n h = elim n [ ]
  entries-Written (q ∷ ps) p k u (Memᴰ.head same) h =
      Written-left mds i k u (entry_stmts v i m q) _ (entry-Written q k u (rw same at h))
  entries-Written (q ∷ ps) p k u (Memᴰ.tail n) h =
      Written-right mds i k u (entry_stmts v i m q) _ (entries-Written ps p k u n h)

  -- Around a link EA's statements stand those of the other attributes.
  pub entries-around_link :
      (ps : List ℕ) (p : ℕ)
      → Memᴰ p ps
      → begins m (p + 16) (codes "link") ≡ true
      → (xs : List Stmt) × (ys : List Stmt) × (entries_stmts v i m ps
          ≡ xs ++ set_fid mds i pfid (lu_fid_be_at (value_at v i m p) 26) ∷ merge_mds_parent ∷ ys)
  entries-around_link [] p n h = elim n [ ]
  entries-around_link (q ∷ ps) p (Memᴰ.head same) h =
      let at_q : begins m (q + 16) (codes "link") ≡ true = rw same at h in
      (
        lma_stmts v i m q,
        lov_stmts v i m q ++ entries_stmts v i m ps,
        rw (same, at_q) (append_assoc (lma_stmts v i m q) _ _),
      )
  entries-around_link (q ∷ ps) p (Memᴰ.tail n) h =
      let (xs, ys, e) = entries-around_link ps p n h in
      (entry_stmts v i m q ++ xs, ys, rw e (sym (append_assoc (entry_stmts v i m q) xs _)))
