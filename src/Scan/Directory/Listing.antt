-- ===== src/Scan/Directory/Listing.antt =====
-- The directory listing against the entries of a block.
use native.Mathlib.Decide.{dec_lt, ℕ_discrete}
use dist_lfsck.Disk.{Memory}
use dist_lfsck.Flow.{next, spins}
use dist_lfsck.Prelude.{
  ℕ, zero, suc, ◌+◌, ◌<◌, ◌≤◌, ◌≡◌, ◌≢◌, refl, ◌∙◌, inl, inr, List, [], ◌∷◌, ◌++◌, ◌⊎◌, ◌↔◌,
  append_assoc, append-nil, arith, ◌==◌, ==_iff, if◌then◌else◌, Bool-cases, length,
}
use dist_lfsck.Report.{Event, printed, dir_entry}
use dist_lfsck.Scan.Directory.{ed_inode, ed_rec_len, list_block}
use dist_lfsck.Scan.{Scan, print}

-- A directory entry, by the fields that steer the loop.
pub record DirEntry : Type 0 where
  pub inode : ℕ
  pub rec_len : ℕ

-- The entries tile the block from `p` up to `end`.
abbrev pub Tiles : Memory → ℕ → List DirEntry → ℕ → Type 0
Tiles buf p [] end = p ≡ end
Tiles buf p (e ∷ es) end =
    (ed_inode buf p ≡ e.inode)
    × (ed_rec_len buf p ≡ e.rec_len)
    × (0 < e.rec_len)
    × Tiles buf (p + e.rec_len) es end

-- The lines for the entries before the first unused one.
abbrev pub live_lines : ℕ → List DirEntry → List Event
live_lines p [] = []
live_lines p (e ∷ es) =
    if e.inode == 0
    then []
    else printed (dir_entry e.inode e.rec_len (p + 8)) ∷ live_lines (p + e.rec_len) es

Tiles-le : (buf : Memory) (es : List DirEntry) (p end : ℕ) → Tiles buf p es end → p ≤ end
Tiles-le buf [] p end t = omega arith
Tiles-le buf (e ∷ es) p end t = omega (arith, Tiles-le buf es (p + e.rec_len) end t.3)

-- One round of the loop: at the end of the block, at an unused entry, and at one in use.
module _ (buf : Memory) (fuel p block_size : ℕ) (s : Scan) where
  list_block_at_end : block_size ≤ p → list_block (suc fuel) buf block_size p s ≡ next s
  unfolding list_block
  list_block_at_end h = ground arith

  list_block_unused :
      p < block_size → ed_inode buf p ≡ 0 → list_block (suc fuel) buf block_size p s ≡ next s
  unfolding list_block
  list_block_unused h e = ground arith

  list_block_live :
      p < block_size
      → ed_inode buf p ≢ 0
      → list_block (suc fuel) buf block_size p s
        ≡ list_block fuel buf block_size
            (p + ed_rec_len buf p)
            (print (dir_entry (ed_inode buf p) (ed_rec_len buf p) (p + 8)) s)
  unfolding list_block
  list_block_live h e = ground arith

-- Of the entries that tile the block, the listing prints those before the first unused one, in
-- order, and then it stops, also where entries in use follow. It changes nothing but the output.
pub list_block-Tiles :
    (buf : Memory) (es : List DirEntry) (fuel p block_size : ℕ) (s : Scan)
    → length es < fuel
    → Tiles buf p es block_size
    → list_block fuel buf block_size p s ≡ next (record s { events = s.events ++ live_lines p es })
list_block-Tiles buf es zero p end s h t = absurd (omega arith)
list_block-Tiles buf [] (suc fuel) p end s h t =
    list_block_at_end buf fuel p end s (omega arith) ∙ rw append-nil
list_block-Tiles buf (e ∷ es) (suc fuel) p end s h (ino, len, pos, rest) =
    let inside : p < end = omega (arith, Tiles-le buf es (p + e.rec_len) end rest) in
    elim (Bool-cases (e.inode == 0)) [
      | inl unused ↦
          list_block_unused buf fuel p end s inside (ino ∙ (==_iff e.inode 0).0 unused)
          ∙ rw (unused, append-nil)
      | inr live ↦
          list_block_live buf fuel p end s inside (ground arith)
          ∙ rw (live, ino, len)
              (list_block-Tiles buf es fuel (p + e.rec_len) end _ (omega arith) rest
                ∙ rw append_assoc)
    ]

-- The entries in use that the loop comes to from `p` on stand at these offsets, each `rec_len` bytes
-- behind the one before; then the block ends, or an unused entry stands there.
abbrev pub Listed : Memory → ℕ → ℕ → List ℕ → Type 0
Listed buf block_size p [] = (block_size ≤ p) ⊎ (ed_inode buf p ≡ 0)
Listed buf block_size p (q ∷ qs) =
    (p ≡ q)
    × (p < block_size)
    × (ed_inode buf p ≢ 0)
    × Listed buf block_size (p + ed_rec_len buf p) qs

Listed-ends :
    (buf : Memory) (block_size : ℕ) (qs : List ℕ) (fuel p : ℕ) (s : Scan)
    → length qs < fuel
    → Listed buf block_size p qs
    → list_block fuel buf block_size p s ≢ spins
Listed-ends buf end qs zero p s h l = absurd (omega arith)
Listed-ends buf end [] (suc fuel) p s h l = elim (dec_lt p end) [
  | no past ↦ rw (list_block_at_end buf fuel p end s (omega arith)) (λ e. cc)
  | yes inside ↦ elim l [
    | inl past ↦ absurd (omega arith)
    | inr unused ↦ rw (list_block_unused buf fuel p end s inside unused) (λ e. cc)
  ]
]
Listed-ends buf end (q ∷ qs) (suc fuel) p s h (at, inside, live, rest) =
    rw (list_block_live buf fuel p end s inside live)
      (Listed-ends buf end qs fuel (p + ed_rec_len buf p) _ (omega arith) rest)

ends-Listed :
    (buf : Memory) (block_size fuel p : ℕ) (s : Scan)
    → list_block fuel buf block_size p s ≢ spins
    → (qs : List ℕ) × Listed buf block_size p qs × (length qs < fuel)
unfolding list_block
ends-Listed buf end zero p s h = absurd (h refl)
ends-Listed buf end (suc fuel) p s h = elim (dec_lt p end) [
  | no past ↦ ([], inl (omega arith), omega arith)
  | yes inside ↦ elim (ℕ_discrete (ed_inode buf p) 0) [
    | yes unused ↦ ([], inr unused, omega arith)
    | no live ↦
        let (qs, l, short) =
          ends-Listed buf end fuel (p + ed_rec_len buf p) _
            (rw (list_block_live buf fuel p end s inside live) at h) in
        (p ∷ qs, (refl, inside, live, l), omega arith)
  ]
]

-- The listing of a directory block from an offset on ends within a number of tests exactly when the
-- entries in use that it comes to, each rec_len bytes behind the one before, are fewer than these
-- tests up to an unused entry or the end of the block; no other byte of the block matters.
pub list_block_ends_iff :
    (buf : Memory) (fuel p block_size : ℕ) (s : Scan)
    → (list_block fuel buf block_size p s ≢ spins)
      ↔ ((qs : List ℕ) × Listed buf block_size p qs × (length qs < fuel))
list_block_ends_iff buf fuel p end s =
    (ends-Listed buf end fuel p s, λ l. Listed-ends buf end l.0 fuel p s l.2 l.1)

-- An entry in use whose `rec_len` is zero is printed for ever: no number of tests is enough.
pub list_block-spins :
    (buf : Memory) (fuel p block_size : ℕ) (s : Scan)
    → p < block_size
    → ed_inode buf p ≢ 0
    → ed_rec_len buf p ≡ 0
    → list_block fuel buf block_size p s ≡ spins
unfolding list_block
list_block-spins buf zero p end s h live stuck = refl
list_block-spins buf (suc fuel) p end s h live stuck =
    let here : p + ed_rec_len buf p ≡ p = omega arith in
    list_block_live buf fuel p end s h live
    ∙ rw here (list_block-spins buf fuel p end _ h live stuck)
