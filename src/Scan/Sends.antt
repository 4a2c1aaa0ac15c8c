-- ===== src/Scan/Sends.antt =====
-- Scanners all of whose statements have a property, such as fitting a buffer.
use dist_lfsck.Cypher.{Stmt}
use dist_lfsck.Disk.{Memory}
use dist_lfsck.Flow.{Flow, Leaves, Leaves-bind}
use dist_lfsck.Prelude.{
  ℕ, zero, suc, ◌+◌, ◌≡◌, inl, inr, List, [], ◌∷◌, ◌++◌, ltb, ◌==◌, Bool-cases, All,
}
use dist_lfsck.Report.{Event, Line, printed, ran, statements}
use dist_lfsck.Scan.Directory.{ed_inode, ed_rec_len, list_block, list_directory}
use dist_lfsck.Scan.{Volume, Scan, print, run}
use dist_lfsck.Xattr.{is_last_entry, xattr_next, walk}

module _ (Q : Stmt → Type 0) where
  -- Every statement sent so far has the property.
  pub record SentAll (s : Scan) : Type 0 where
    pub each_sent : All Q (statements s.events)

  All-statements :
      (xs ys : List Event)
      → All Q (statements xs)
      → All Q (statements ys)
      → All Q (statements (xs ++ ys))
  All-statements [] ys hx hy = hy
  All-statements (printed l ∷ xs) ys hx hy = All-statements xs ys hx hy
  All-statements (ran q ∷ xs) ys hx hy = (hx.0, All-statements xs ys hx.1 hy)

  pub SentAll-print : (l : Line) (s : Scan) → SentAll s → SentAll (print l s)
  SentAll-print l s h = record {
    each_sent = All-statements s.events (printed l ∷ []) h.each_sent tt;
  }

  pub SentAll-run : (q : Stmt) (s : Scan) → Q q → SentAll s → SentAll (run q s)
  SentAll-run q s k h = record {
    each_sent = All-statements s.events (ran q ∷ []) h.each_sent (k, tt);
  }

  -- A counter or the buffer may change meanwhile.
  pub SentAll-count : {t : Scan} (u : Scan) → u.events ≡ t.events → SentAll t → SentAll u
  SentAll-count u e h = record { each_sent = rw e h.each_sent }

  pub walk-SentAll :
      (fuel : ℕ) (m : Memory) (body : ℕ → Scan → Flow Scan) (o : ℕ) (s : Scan)
      → ((p : ℕ) (t : Scan) → SentAll t → Leaves SentAll (body p t))
      → SentAll s
      → Leaves SentAll (walk fuel m body o s)
  unfolding walk
  walk-SentAll zero m body o s keep h = tt
  walk-SentAll (suc fuel) m body o s keep h = elim (Bool-cases (is_last_entry m o)) [
    | inl last ↦ rw (last, walk) h
    | inr going ↦
        rw (going, walk)
          (Leaves-bind SentAll (body o s) _ (keep o s h)
            (λ t k. walk-SentAll fuel m body (xattr_next m o) t keep k))
  ]

  list_block-SentAll :
      (fuel : ℕ) (buf : Memory) (size p : ℕ) (s : Scan)
      → SentAll s
      → Leaves SentAll (list_block fuel buf size p s)
  unfolding list_block
  list_block-SentAll zero buf size p s h = tt
  list_block-SentAll (suc fuel) buf size p s h = elim (Bool-cases (ltb p size)) [
    | inr past ↦ rw (past, list_block) h
    | inl inside ↦ elim (Bool-cases (ed_inode buf p == 0)) [
      | inl unused ↦ rw (inside, unused, list_block) h
      | inr live ↦
          rw (inside, live, list_block)
            (list_block-SentAll fuel buf size (p + ed_rec_len buf p) _ (SentAll-print _ s h))
    ]
  ]

  pub list_directory-SentAll :
      (v : Volume) (i : ℕ) (s : Scan) → SentAll s → Leaves SentAll (list_directory v i s)
  unfolding list_directory
  list_directory-SentAll v i s h =
      Leaves-bind SentAll (list_block v.fuel _ v.block_size 0 s) _
        (list_block-SentAll v.fuel _ v.block_size 0 s h) (λ t k. k)
