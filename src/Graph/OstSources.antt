-- ===== src/Graph/OstSources.antt =====
-- What the properties of the OSS nodes come from: the attributes on the object server's disk.
use dist_lfsck.Cypher.{
  Label, oss, lma, pfid, fid, Stmt, set_type, set_fid, set_f_oid, merge_ost_child, directory, file,
  fid_text,
}
use dist_lfsck.Disk.{Memory, load}
use dist_lfsck.Graph.Attributes.{Attribute}
use dist_lfsck.Graph.Laws.{Written}
use dist_lfsck.Graph.Order.{Written-left, Written-right}
use dist_lfsck.Graph.Writes.{
  writes-set_fid, writes-set_f_oid, writes-set_type, Written-append, Written-cons, Written-nil,
  Written-if, rounds_of, Written-rounds_of,
}
use dist_lfsck.Graph.{Key, type_key, ost_oid_key, f_oid_key, fid_key}
use dist_lfsck.Lustre.{lu_fid_at}
use dist_lfsck.Ost.Inodes.{type_stmts, inode_stmts, volume_stmts, lov_stmts}
use dist_lfsck.Ost.Statements.{value_on_device, lma_stmts, fid_stmts, entry_stmts, entries_stmts}
use dist_lfsck.Prelude.{
  ℕ, zero, suc, ◌+◌, ◌≡◌, refl, ap, sym, ◌≢◌, inl, inr, true, ◌==◌, arith, ==_refl, append_assoc,
  some, List, [], ◌∷◌, ◌++◌, Bytes, Memᴰ, codes, Bool-cases,
}
use dist_lfsck.Scan.Rounds.{buffer_after}
use dist_lfsck.Scan.{Volume, rounds, ihdr, attr_magic, i_mode, is_dir, is_reg}
use dist_lfsck.Text.{hex}
use dist_lfsck.Xattr.{begins}

-- What the entry at offset `p` of an inode's buffer says of the property, as a text.
abbrev pub Says : Volume → ℕ → Memory → ℕ → Key → Bytes → Type 0
Says v i m p (fid_key lma) u =
    (begins m (p + 16) (codes "lma") ≡ true)
    × (fid_text (lu_fid_at (value_on_device v i m p) 8) ≡ u)
Says v i m p (fid_key fid) u =
    (begins m (p + 16) (codes "fid") ≡ true)
    × (fid_text (lu_fid_at (value_on_device v i m p) 0) ≡ u)
Says v i m p f_oid_key u =
    (begins m (p + 16) (codes "lma") ≡ true) × (hex (load 4 (value_on_device v i m p) 16) ≡ u)
Says v i m p k u = ⊥

module _ (v : Volume) (i : ℕ) (m : Memory) (l : Label) (j : ℕ) (k : Key) (u : Bytes) where
  lma-Says : (p : ℕ) → Written (lma_stmts v i m p) l j k u → (l ≡ oss) × (j ≡ i) × Says v i m p k u
  lma-Says p h =
      let (is_lma, w) = Written-if (begins m (p + 16) (codes "lma")) _ l j k u h in
      elim (Written-cons _ (set_f_oid i (load 4 (value_on_device v i m p) 16) ∷ []) l j k u w) [
        | inl set ↦
            let (a, b, c, d) = writes-set_fid oss i lma _ l j k u set in (a, b, rw c (is_lma, d))
        | inr more ↦ elim (Written-cons _ [] l j k u more) [
          | inr rest ↦ absurd (Written-nil l j k u rest)
          | inl set ↦
              let (a, b, c, d) = writes-set_f_oid i _ l j k u set in (a, b, rw c (is_lma, d))
        ]
      ]

  fid-Says : (p : ℕ) → Written (fid_stmts v i m p) l j k u → (l ≡ oss) × (j ≡ i) × Says v i m p k u
  fid-Says p h =
      let (is_fid, w) = Written-if (begins m (p + 16) (codes "fid")) _ l j k u h in
      elim (Written-cons _ (merge_ost_child ∷ []) l j k u w) [
        | inl set ↦
            let (a, b, c, d) = writes-set_fid oss i fid _ l j k u set in (a, b, rw c (is_fid, d))
        | inr rest ↦ elim (Written-cons merge_ost_child [] l j k u rest) [
          | inl merged ↦ (cc)
          | inr none_left ↦ absurd (Written-nil l j k u none_left)
        ]
      ]

  entries-Says :
      (ps : List ℕ)
      → Written (entries_stmts v i m ps) l j k u
      → (l ≡ oss) × (j ≡ i) × (p : ℕ) × Memᴰ p ps × Says v i m p k u
  entries-Says [] h = absurd (Written-nil l j k u h)
  entries-Says (p ∷ ps) h = elim (Written-append (entry_stmts v i m p) _ l j k u h) [
    | inr more ↦ let (a, b, q, n, c) = entries-Says ps more in (a, b, q, Memᴰ.tail n, c)
    | inl here ↦ elim (Written-append (lma_stmts v i m p) _ l j k u here) [
      | inl w ↦ let (a, b, c) = lma-Says p w in (a, b, p, Memᴰ.head refl, c)
      | inr w ↦ let (a, b, c) = fid-Says p w in (a, b, p, Memᴰ.head refl, c)
    ]
  ]

  type-Says : Written (type_stmts i (i_mode m)) l j k u → k ≡ type_key
  type-Says h = elim (Bool-cases (is_dir (i_mode m))) [
    | inl dir ↦ elim (Written-cons _ [] l j k u (rw dir at h)) [
      | inl w ↦ writes-set_type oss i directory l j k u w
      | inr rest ↦ absurd (Written-nil l j k u rest)
    ]
    | inr other ↦
        let (is_file, w) =
          Written-if (is_reg (i_mode m)) (set_type oss i file ∷ []) l j k u (rw other at h) in
        elim (Written-cons _ [] l j k u w) [
          | inl set ↦ writes-set_type oss i file l j k u set
          | inr rest ↦ absurd (Written-nil l j k u rest)
        ]
  ]

  inode-Says :
      (ps : List ℕ)
      → k ≢ type_key
      → Written (inode_stmts v i m ps) l j k u
      → ((load 4 m (ihdr m) == attr_magic) ≡ true)
        × (l ≡ oss)
        × (j ≡ i)
        × (p : ℕ) × Memᴰ p ps
        × Says v i m p k u
  inode-Says ps other h =
      let (marked, w) = Written-if (load 4 m (ihdr m) == attr_magic) _ l j k u h in
      elim (Written-cons _ _ l j k u w) [
        | inl created ↦ (cc)
        | inr more ↦ elim (Written-append (type_stmts i (i_mode m)) _ l j k u more) [
          | inl typed ↦ absurd (other (type-Says typed))
          | inr set ↦ let (a, b, p, n, c) = entries-Says ps set in (marked, a, b, p, n, c)
        ]
      ]

-- The property of node `i` stands in an attribute of object inode `i` on the disk.
abbrev pub OnOst : Volume → (ℕ → List ℕ) → ℕ → Key → Bytes → Type 0
OnOst v offsets i k u = Attribute v offsets i (λ r m p. Says v r m p k u)

pub volume-rounds_of :
    (v : Volume) (offsets : ℕ → List ℕ) (left k : ℕ)
    → volume_stmts v offsets left k
      ≡ rounds_of (λ r. inode_stmts v (r + 1) (buffer_after v (suc r)) (offsets (r + 1))) left k
volume-rounds_of v offsets zero k = refl
volume-rounds_of v offsets (suc left) k =
    ap (λ ss. inode_stmts v (k + 1) (buffer_after v (suc k)) (offsets (k + 1)) ++ ss)
      (volume-rounds_of v offsets left (suc k))

pub relations-set_nothing :
    (left j : ℕ) (l : Label) (i : ℕ) (k : Key) (u : Bytes) → ¬ Written (lov_stmts left j) l i k u
unfolding lov_stmts
relations-set_nothing zero j l i k u h = Written-nil l i k u h
relations-set_nothing (suc left) j l i k u h = elim (Written-cons _ _ l i k u h) [
  | inl merged ↦ (cc)
  | inr more ↦ relations-set_nothing left (j + 1) l i k u more
]

-- The scan sets the property of an OSS node to what an attribute of that inode says.
pub volume-OnOst :
    (v : Volume) (offsets : ℕ → List ℕ) (left : ℕ) (l : Label) (j : ℕ) (k : Key) (u : Bytes)
    → k ≢ type_key
    → Written (volume_stmts v offsets (rounds v.total_inodes) 0 ++ lov_stmts left 1) l j k u
    → (l ≡ oss) × OnOst v offsets j k u
volume-OnOst v offsets left l j k u other h =
    elim (Written-append (volume_stmts v offsets (rounds v.total_inodes) 0) _ l j k u h) [
      | inr merged ↦ absurd (relations-set_nothing left 1 l j k u merged)
      | inl set ↦
          let (r, _, below, w) =
            Written-rounds_of _ (rounds v.total_inodes) 0 l j k u
              (rw (volume-rounds_of v offsets (rounds v.total_inodes) 0) at set) in
          let (marked, label, number, p, listed, says) =
            inode-Says v (r + 1) (buffer_after v (suc r)) l j k u (offsets (r + 1)) other w in
          (
            label,
            record {
              round = r;
              inside = omega (arith, below);
              number = number;
              marked = marked;
              entry = p;
              listed = listed;
              says = says;
            },
          )
    ]

module _ (v : Volume) (i : ℕ) (m : Memory) where
  entry-Written :
      (p : ℕ) (k : Key) (u : Bytes) → Says v i m p k u → Written (entry_stmts v i m p) oss i k u
  entry-Written p (fid_key lma) u (is_lma, e) =
      Written-left oss i (fid_key lma) u (lma_stmts v i m p) _
        (rw is_lma (_, Memᴰ.head refl, rw (==_refl i) (ap some e)))
  entry-Written p (fid_key fid) u (is_fid, e) =
      Written-right oss i (fid_key fid) u (lma_stmts v i m p) _
        (rw is_fid (_, Memᴰ.head refl, rw (==_refl i) (ap some e)))
  entry-Written p f_oid_key u (is_lma, e) =
      Written-left oss i f_oid_key u (lma_stmts v i m p) _
        (rw is_lma (_, Memᴰ.tail (Memᴰ.head refl), rw (==_refl i) (ap some e)))
  entry-Written p (fid_key pfid) u h = elim h [ ]
  entry-Written p ost_oid_key u h = elim h [ ]
  entry-Written p type_key u h = elim h [ ]

  -- What an entry says is set by the entries' statements.
  pub entries-Written :
      (ps : List ℕ) (p : ℕ) (k : Key) (u : Bytes)
      → Memᴰ p ps
      → Says v i m p k u
      → Written (entries_stmts v i m ps) oss i k u
  entries-Written [] p k u n h = elim n [ ]
  entries-Written (q ∷ ps) p k u (Memᴰ.head same) h =
      Written-left oss i k u (entry_stmts v i m q) _ (entry-Written q k u (rw same at h))
  entries-Written (q ∷ ps) p k u (Memᴰ.tail n) h =
      Written-right oss i k u (entry_stmts v i m q) _ (entries-Written ps p k u n h)

  -- Around a filter FID's statements stand those of the other attributes.
  pub entries-around_fid :
      (ps : List ℕ) (p : ℕ)
      → Memᴰ p ps
      → begins m (p + 16) (codes "fid") ≡ true
      → (xs : List Stmt) × (ys : List Stmt) × (entries_stmts v i m ps
          ≡ xs ++ set_fid oss i fid (lu_fid_at (value_on_device v i m p) 0) ∷ merge_ost_child ∷ ys)
  entries-around_fid [] p n h = elim n [ ]
  entries-around_fid (q ∷ ps) p (Memᴰ.head same) h =
      let at_q : begins m (q + 16) (codes "fid") ≡ true = rw same at h in
      (
        lma_stmts v i m q,
        entries_stmts v i m ps,
        rw (same, at_q) (append_assoc (lma_stmts v i m q) _ _),
      )
  entries-around_fid (q ∷ ps) p (Memᴰ.tail n) h =
      let (xs, ys, e) = entries-around_fid ps p n h in
      (entry_stmts v i m q ++ xs, ys, rw e (sym (append_assoc (entry_stmts v i m q) xs _)))
