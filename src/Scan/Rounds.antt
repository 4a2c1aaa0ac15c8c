-- ===== src/Scan/Rounds.antt =====
-- The loop over the inodes, `for (int i = 1; i <= total_inodes; i++)`, whatever a round does.
use mathlib.Core.Path.{subst}
use dist_lfsck.Cypher.{Stmt}
use dist_lfsck.Disk.{Memory, read_at}
use dist_lfsck.Flow.{Flow, next, ◌>>=◌, bind_cong, bind_assoc, Leaves, Leaves-bind}
use dist_lfsck.Prelude.{
  ℕ, zero, suc, ◌+◌, ◌^◌, ◌<◌, ◌≤◌, ◌≡◌, refl, sym, ap, ◌∙◌, arith, List, [], ◌++◌, append_assoc,
  append-nil,
}
use dist_lfsck.Report.{statements}
use dist_lfsck.Scan.{Volume, Scan, inode_location, rounds}

-- The loop from inode `i` on, with `left` rounds to go.
unfoldable pub for_inodes : (ℕ → Scan → Flow Scan) → ℕ → ℕ → Scan → Flow Scan
for_inodes body zero i s = next s
for_inodes body (suc left) i s = body i s >>= λ t. for_inodes body left (i + 1) t

-- The buffer when round `i` has read its inode.
abbrev pub after_read : Volume → ℕ → Memory → Memory
after_read v i buf = read_at v.image (inode_location v i) v.inode_size buf

-- The inode's buffer before any round, and after round k: a short read leaves old bytes in it.
abbrev pub buffer_after : Volume → ℕ → Memory
buffer_after v zero = v.uninit.cur_inode
buffer_after v (suc k) = after_read v (k + 1) (buffer_after v k)

pub rounds-le : (total : ℕ) → rounds total + 0 ≤ total
rounds-le total = ground arith

pub rounds-lt : (total : ℕ) → rounds total + 1 ≤ 2 ^ 31
rounds-lt total = ground arith

-- From `s` to `t` a round has sent these statements, and left the inode it read in the buffer.
pub record Round (v : Volume) (i : ℕ) (qs : List Stmt) (s t : Scan) : Type 0 where
  pub sent : statements t.events ≡ statements s.events ++ qs
  pub buffer : t.cur_inode ≡ after_read v i s.cur_inode

-- A round that goes on wherever its inode is in order, and what it sends for it.
module _ (v : Volume) (body : ℕ → Scan → Flow Scan) (stmts : ℕ → Memory → List Stmt)
    (Ok : ℕ → Memory → Type 0)
    (step : (i : ℕ) (s : Scan)
      → Ok i (after_read v i s.cur_inode)
      → (t : Scan) × (body i s ≡ next t)
        × Round v i (stmts i (after_read v i s.cur_inode)) s t) where
  -- What `left` rounds send after round `k`.
  abbrev pub rounds_stmts : ℕ → ℕ → List Stmt
  rounds_stmts zero k = []
  rounds_stmts (suc left) k = stmts (k + 1) (buffer_after v (suc k)) ++ rounds_stmts left (suc k)

  -- With every inode in order the loop ends, and has sent the statements of its rounds.
  pub for_inodes-sends :
      (left k n : ℕ) (s : Scan)
      → ((j : ℕ) → j < n → Ok (j + 1) (buffer_after v (suc j)))
      → left + k ≤ n
      → s.cur_inode ≡ buffer_after v k
      → (t : Scan) × (for_inodes body left (k + 1) s ≡ next t)
        × (statements t.events ≡ statements s.events ++ rounds_stmts left k)
        × (t.cur_inode ≡ buffer_after v (left + k))
  unfolding for_inodes
  for_inodes-sends zero k n s ok fits at =
      let none_left : zero + k ≡ k = omega arith in
      (s, refl, sym (append-nil (statements s.events)), rw none_left at)
  for_inodes-sends (suc left) k n s ok fits at =
      let ready =
        subst (λ buf. Ok (k + 1) (after_read v (k + 1) buf)) (sym at) (ok k (omega arith)) in
      let (t, e, r) = step (k + 1) s ready in
      let sent =
        r.sent ∙ ap (λ buf. statements s.events ++ stmts (k + 1) (after_read v (k + 1) buf)) at in
      let (u, f, rest, last) =
        for_inodes-sends left (suc k) n t ok (omega arith)
          (r.buffer ∙ ap (after_read v (k + 1)) at) in
      let round : k + 1 + 1 ≡ suc k + 1 = omega arith in
      (
        u,
        rw e (rw round f),
        rest
            ∙ ap (λ l. l ++ rounds_stmts left (suc k)) sent
            ∙ append_assoc (statements s.events) _ _,
        last ∙ ap (buffer_after v) (omega arith),
      )

-- The first rounds of the loop, and the others.
pub for_inodes-split :
    (body : ℕ → Scan → Flow Scan) (a b i : ℕ) (s : Scan)
    → for_inodes body (a + b) i s ≡ (for_inodes body a i s >>= for_inodes body b (i + a))
unfolding for_inodes
for_inodes-split body zero b i s =
    let sum : zero + b ≡ b = omega arith in let from : i + zero ≡ i = omega arith in rw (sum, from)
for_inodes-split body (suc a) b i s =
    let sum : suc a + b ≡ suc (a + b) = omega arith in
    let from : i + suc a ≡ i + 1 + a = omega arith in
    rw (sum, from)
      (bind_cong (body i s) _ _ (λ t. for_inodes-split body a b (i + 1) t)
        ∙ sym (bind_assoc (body i s) _ _))

-- What every round keeps, the loop keeps.
pub for_inodes-Leaves :
    (P : Scan → Type 0) (body : ℕ → Scan → Flow Scan)
    → ((i : ℕ) (s : Scan) → i < 2 ^ 31 → P s → Leaves P (body i s))
    → (left i : ℕ) (s : Scan) → left + i ≤ 2 ^ 31
    → P s
    → Leaves P (for_inodes body left i s)
unfolding for_inodes
for_inodes-Leaves P body keep zero i s small h = h
for_inodes-Leaves P body keep (suc left) i s small h =
    Leaves-bind P (body i s) _ (keep i s (omega arith) h)
      (λ t k. for_inodes-Leaves P body keep left (i + 1) t (omega arith) k)
