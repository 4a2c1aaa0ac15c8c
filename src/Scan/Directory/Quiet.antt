-- ===== src/Scan/Directory/Quiet.antt =====
-- The directory listing, seen by what it sends.
use dist_lfsck.Disk.{Memory, read_at}
use dist_lfsck.Flow.{next, spins}
use dist_lfsck.Prelude.{
  ℕ, zero, suc, ◌+◌, ◌*◌, ◌%◌, ◌^◌, ◌<◌, ◌≡◌, ◌≢◌, refl, inl, inr, [], ltb, ◌==◌, Bool-cases, List,
  length,
}
use dist_lfsck.Scan.Adds.{Adds, Adds-refl, Adds-trans, Adds-print}
use dist_lfsck.Scan.Directory.Listing.{Listed, list_block_ends_iff}
use dist_lfsck.Scan.Directory.{ed_inode, ed_rec_len, list_block, list_directory}
use dist_lfsck.Scan.{Volume, Scan, i_block_first}

list_block-next :
    (buf : Memory) (fuel p block_size : ℕ) (s : Scan)
    → list_block fuel buf block_size p s ≢ spins
    → (t : Scan) × (list_block fuel buf block_size p s ≡ next t) × Adds [] s t
unfolding list_block
list_block-next buf zero p end s h = absurd (h refl)
list_block-next buf (suc fuel) p end s h = elim (Bool-cases (ltb p end)) [
  | inr past ↦ (s, rw (past, list_block), Adds-refl s)
  | inl inside ↦ elim (Bool-cases (ed_inode buf p == 0)) [
    | inl unused ↦ (s, rw (inside, unused, list_block), Adds-refl s)
    | inr live ↦
        let (t, e, a) =
          list_block-next buf fuel (p + ed_rec_len buf p) end _
            (rw (inside, live, list_block) at h) in
        (t, rw (inside, live, list_block) e, Adds-trans [] [] (Adds-print _ s) a)
  ]
]

-- The block that the directory of inode `i` is listed from.
abbrev pub directory_block : Volume → ℕ → Memory → Memory
directory_block v i m =
    read_at v.image (i_block_first m * v.block_size % 2 ^ 32) v.block_size (v.uninit.block_buf i)

-- The entries in use that the listing comes to are fewer than the tests granted.
pub record ListsBlock (v : Volume) (i : ℕ) (m : Memory) : Type 0 where
  pub entries : List ℕ
  pub listed : Listed (directory_block v i m) v.block_size 0 entries
  pub enough : length entries < v.fuel

-- The exit for a directory of more than twelve blocks is never taken, and no statement is sent.
pub list_directory-Adds :
    (v : Volume) (i : ℕ) (s : Scan)
    → ListsBlock v i s.cur_inode
    → (t : Scan) × (list_directory v i s ≡ next t) × Adds [] s t
unfolding list_directory
list_directory-Adds v i s l =
    let buf = directory_block v i s.cur_inode in
    let ends =
      (list_block_ends_iff buf v.fuel 0 v.block_size s).1 (l.entries, l.listed, l.enough) in
    let (t, e, a) = list_block-next buf v.fuel 0 v.block_size s ends in (t, rw e, a)
