-- ===== src/Graph/Attributes.antt =====
-- An attribute of an inode of a volume, and where the properties of a node come from.
use dist_lfsck.Disk.{Memory}
use dist_lfsck.Mds.Inodes.{HasAttrs}
use dist_lfsck.Prelude.{ℕ, suc, ◌+◌, ◌<◌, ◌≡◌, List, Memᴰ}
use dist_lfsck.Scan.Rounds.{buffer_after}
use dist_lfsck.Scan.{Volume, rounds}

-- The buffer of inode `i` has attributes, and one at the offsets that are read says this.
pub record Attribute (v : Volume) (offsets : ℕ → List ℕ) (i : ℕ) (Says : ℕ → Memory → ℕ → Type 0)
    : Type 0 where
  pub round : ℕ
  pub inside : round < rounds v.total_inodes
  pub number : i ≡ round + 1
  pub marked : HasAttrs (buffer_after v (suc round))
  pub entry : ℕ
  pub listed : Memᴰ entry (offsets (round + 1))
  pub says : Says (round + 1) (buffer_after v (suc round)) entry

pub Attribute-map :
    {v : Volume} {offsets : ℕ → List ℕ} {i : ℕ} (P Q : ℕ → Memory → ℕ → Type 0)
    (a : Attribute v offsets i P)
    → (P (a.round + 1) (buffer_after v (suc a.round)) a.entry
        → Q (a.round + 1) (buffer_after v (suc a.round)) a.entry)
    → Attribute v offsets i Q
Attribute-map P Q a f = record {
  round = a.round;
  inside = a.inside;
  number = a.number;
  marked = a.marked;
  entry = a.entry;
  listed = a.listed;
  says = f a.says;
}
