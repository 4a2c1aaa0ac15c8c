-- ===== src/Older/Entries.antt =====
-- The loops over the names of an inode's attributes in the older scanners, which compare the entries
-- with a limit.
use dist_lfsck.Disk.{Memory, load}
use dist_lfsck.Flow.{Flow, next, exit}
use dist_lfsck.Older.MdsFinal.{mds_name}
use dist_lfsck.Older.OssFinal.{oss_name}
use dist_lfsck.Older.{name_of_entry, lov_exists, shown_name, Pass, show, minus_eio, advance}
use dist_lfsck.Prelude.{
  if◌then◌else◌, ◌==◌, ℕ, zero, suc, ◌+◌, ◌*◌, ◌<◌, ◌≤◌, ◌≡◌, ◌⊎◌, inl, inr, refl, sym, arith, List,
  [], ◌∷◌, leb, ==_iff, Bool-cases, length,
}
use dist_lfsck.Xattr.Walk.{ne_of_test, Reaches}
use dist_lfsck.Xattr.{Chain, is_last_entry, walk, xattr_next}

-- The loop over the names goes on: the entries form a chain that ends before `limit`, and `e` is
-- left at its terminator.
pub record NamesEnd (m : Memory) (fuel o limit : ℕ) (t : Pass) : Type 0 where
  pub offsets : List ℕ
  pub chain : Chain m o offsets t.e
  pub inside : t.e < limit
  pub short : length offsets < fuel

-- From `o` on a chain of entries comes to one whose end reaches the limit.
abbrev pub LastReaches : Memory → ℕ → ℕ → Type 0
LastReaches m limit o = (qs : List ℕ) × (p : ℕ) × Reaches m o qs p × (limit ≤ xattr_next m p)

module _ (m : Memory) (limit : ℕ) (dress : ℕ → Pass → Pass) where
  abbrev names_step : ℕ → Pass → Flow Pass
  names_step p s = advance m limit p (dress p s)

  -- With a test for each 16 bytes up to the limit, the loop over the names ends.
  names_end :
      (fuel o : ℕ) (s : Pass)
      → o < limit
      → limit ≤ o + 16 * fuel
      → s.e ≡ o
      → ((t : Pass) × (walk fuel m names_step o s ≡ next t) × NamesEnd m fuel o limit t)
        ⊎ ((t : Pass) × (walk fuel m names_step o s ≡ exit t minus_eio) × LastReaches m limit o)
  unfolding walk
  names_end zero o s before enough at = absurd (omega arith)
  names_end (suc fuel) o s before enough at = elim (Bool-cases (is_last_entry m o)) [
    | inl last ↦ inl (
      s,
      rw (last, walk),
      record {
        offsets = [];
        chain = (sym at, (==_iff (load 4 m o) 0).0 last);
        inside = omega arith;
        short = omega arith;
      },
    )
    | inr going ↦ elim (Bool-cases (leb limit (xattr_next m o))) [
      | inl past ↦ inr (
        dress o s,
        rw (going, walk) (rw past),
        ([], o, (refl, ne_of_test m o going), ground arith),
      )
      | inr inside ↦
          let moved = record (dress o s) { e = xattr_next m o } in
          elim (names_end fuel (xattr_next m o) moved (ground arith) (omega arith) refl) [
            | inr (t, e, (qs, p, r, reaches)) ↦ inr (
              t,
              rw (going, walk) (rw inside e),
              (o ∷ qs, p, (refl, ne_of_test m o going, r), reaches),
            )
            | inl (t, e, n) ↦ inl (
              t,
              rw (going, walk) (rw inside e),
              record {
                offsets = o ∷ n.offsets;
                chain = (refl, ne_of_test m o going, n.chain);
                inside = n.inside;
                short = omega (arith, n.short);
              },
            )
          ]
    ]
  ]

-- The loop over the names of either program, for its body.
abbrev pub NamesLoopEnds : (Memory → ℕ → ℕ → Pass → Flow Pass) → Memory → ℕ → ℕ → ℕ → Pass → Type 0
NamesLoopEnds name m limit fuel o s =
    ((t : Pass) × (walk fuel m (name m limit) o s ≡ next t) × NamesEnd m fuel o limit t)
    ⊎ ((t : Pass) × (walk fuel m (name m limit) o s ≡ exit t minus_eio) × LastReaches m limit o)

-- Whatever memory holds, the loops over the names of mds_final.c and oss_final.c end when they are
-- granted a test for each 16 bytes from the first entry to the limit: they go on with `e` at the
-- terminator of a chain of entries that all begin before the limit, or leave the program with the
-- status of -EIO, at an entry that reaches the limit.
pub names_loops_end :
    (m : Memory) (limit fuel o : ℕ) (s : Pass)
    → o < limit
    → limit ≤ o + 16 * fuel
    → s.e ≡ o
    → NamesLoopEnds mds_name m limit fuel o s × NamesLoopEnds oss_name m limit fuel o s
unfolding mds_name oss_name
names_loops_end m limit fuel o s before enough at = (
  names_end m limit
      (λ p t.
        let named = show (name_of_entry (shown_name m p)) t in
        if m (p + 18) == b'v' then show lov_exists named else named)
      fuel o s before enough at,
  names_end m limit (λ p t. show (name_of_entry (shown_name m p)) t) fuel o s before enough at,
)
