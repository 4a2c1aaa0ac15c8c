-- ===== src/Scan/Found.antt =====
-- What a scanner's reads find of an inode that has been written to the disk, whatever the buffer
-- held before.
use dist_lfsck.Cypher.{Stmt}
use dist_lfsck.Disk.Load.{Holds-append}
use dist_lfsck.Disk.Transfer.{load-read_at, Holds-read_at, Holds-on_device, on_device}
use dist_lfsck.Disk.{Memory, load, Holds}
use dist_lfsck.Prelude.{
  ℕ, ◌+◌, ◌<◌, ◌≤◌, ◌≡◌, refl, ◌∙◌, true, List, [], ◌∷◌, map, flat_map, arith, length, All,
}
use dist_lfsck.Scan.Directory.Quiet.{ListsBlock}
use dist_lfsck.Scan.Rounds.{after_read}
use dist_lfsck.Scan.Written.{
  AttrKind, Placed, entry_of, places, length-places, OnDisk, on_disk, IsArea, first_entry,
}
use dist_lfsck.Scan.{
  Volume, attr_magic, i_mode, i_block_first, i_extra_isize, ihdr, ifirst, is_dir, inode_location,
  value_location,
}
use dist_lfsck.Xattr.Encode.{
  Fits, encode_entry, encode_entries, length-encode_entry, Laid, encode_entry-Laid, end_of,
  encode_entries-Chain,
}
use dist_lfsck.Xattr.{xattr_len, Chain}

-- The buffer `m` of inode `i` holds these attributes in an area, and the device their values.
pub record Found (K : AttrKind) (v : Volume) (i : ℕ) (mode : ℕ) (attrs : List (Placed K))
    (m : Memory) (o : ℕ) : Type 0 where
  pub marked : load 4 m (ihdr m) ≡ attr_magic
  pub moded : i_mode m ≡ mode
  pub entries : Holds m o (encode_entries (map (entry_of K) attrs))
  pub chain : Chain m (ifirst m) (places K o attrs) (end_of o (map (entry_of K) attrs))
  pub short : length (places K o attrs) < v.fuel
  pub values : All (OnDisk K v i m) attrs
  pub inside : inode_location v i + v.inode_size ≤ v.image.size
  pub lists : is_dir (i_mode m) ≡ true → ListsBlock v i m

module _ (K : AttrKind) (v : Volume) (i : ℕ) (buf : Memory)
    (inside : inode_location v i + v.inode_size ≤ v.image.size)
    (header : ihdr (on_disk K v i) + 4 ≤ v.inode_size) where
  abbrev disk : Memory
  disk = on_disk K v i

  abbrev read : Memory
  read = after_read v i buf

  field : (n o : ℕ) → o + n ≤ v.inode_size → load n read o ≡ load n disk o
  field n o fits = load-read_at v.image (inode_location v i) v.inode_size buf n o fits inside

  same_extra : i_extra_isize read ≡ i_extra_isize disk
  same_extra = field 2 128 (omega arith)

  pub same_magic : load 4 read (ihdr read) ≡ load 4 disk (ihdr disk)
  same_magic = rw same_extra (field 4 (ihdr disk) header)

  OnDisk-read : (a : Placed K) → OnDisk K v i disk a → OnDisk K v i read a
  OnDisk-read a d = record {
    valid = d.valid;
    fits = d.fits;
    inside = rw same_extra d.inside;
    held = rw same_extra d.held;
  }

  All-OnDisk-read :
      (attrs : List (Placed K)) → All (OnDisk K v i disk) attrs → All (OnDisk K v i read) attrs
  All-OnDisk-read [] d = tt
  All-OnDisk-read (a ∷ rest) d = (OnDisk-read a d.0, All-OnDisk-read rest d.1)

  All-OnDisk-Fits :
      (attrs : List (Placed K)) → All (OnDisk K v i disk) attrs → All Fits (map (entry_of K) attrs)
  All-OnDisk-Fits [] d = tt
  All-OnDisk-Fits (a ∷ rest) d = (d.0.fits, All-OnDisk-Fits rest d.1)

  ListsBlock-read : ListsBlock v i disk → ListsBlock v i read
  ListsBlock-read l =
      let first : i_block_first read ≡ i_block_first disk = field 4 40 (omega arith) in
      record { entries = l.entries; listed = rw first l.listed; enough = l.enough }

  pub IsArea-Found :
      (mode : ℕ) (attrs : List (Placed K))
      → IsArea K v i mode attrs
      → Found K v i mode attrs read (ifirst disk)
  IsArea-Found mode attrs area =
      let same_mode : i_mode read ≡ mode = field 2 0 (omega arith) ∙ area.moded in
      let entries =
        Holds-read_at v.image (inode_location v i) v.inode_size buf (ifirst disk)
          (encode_entries (map (entry_of K) attrs)) area.room inside area.entries in
      record {
        marked = same_magic ∙ area.marked;
        moded = same_mode;
        entries = entries;
        chain = rw same_extra (
            encode_entries-Chain read (map (entry_of K) attrs) (ifirst disk)
              (All-OnDisk-Fits attrs area.values) entries);
        short = omega (arith, length-places K attrs (ifirst disk), area.few);
        values = All-OnDisk-read attrs area.values;
        inside = inside;
        lists = λ dir. ListsBlock-read (area.lists (rw same_mode at dir));
      }

-- The scanner looks for a value where ext4 keeps it.
pub OnDisk-value :
    (K : AttrKind) (v : Volume) (i : ℕ) (m : Memory) (a : Placed K)
    → inode_location v i + v.inode_size ≤ v.image.size
    → OnDisk K v i m a
    → (value_location v i m (entry_of K a) + length (K.attr_value a.attr) ≤ v.image.size)
      × Holds (on_device v.image (value_location v i m (entry_of K a))) 0 (K.attr_value a.attr)
OnDisk-value K v i m a held d = (
  omega (arith, d.inside),
  Holds-on_device v.image (inode_location v i) (first_entry m + a.offs) 0
      (value_location v i m (entry_of K a)) (K.attr_value a.attr) (omega arith) d.held,
)

-- Where each entry says what its attribute does, the entries say what the attributes do.
module _ (K : AttrKind) (v : Volume) (i : ℕ) (m : Memory) (entry_stmts : ℕ → List Stmt)
    (attr_stmts : K.Attr → List Stmt) (Ok : ℕ → Type 0)
    (step : (a : Placed K) (p : ℕ)
      → OnDisk K v i m a
      → Laid m p (entry_of K a)
      → (entry_stmts p ≡ attr_stmts a.attr) × Ok p) where
  pub entries_say :
      (attrs : List (Placed K)) (o : ℕ)
      → All (OnDisk K v i m) attrs
      → Holds m o (encode_entries (map (entry_of K) attrs))
      → (flat_map entry_stmts (places K o attrs)
          ≡ flat_map (λ (a : Placed K). attr_stmts a.attr) attrs)
        × All Ok (places K o attrs)
  unfolding flat_map
  entries_say [] o d h = (refl, tt)
  entries_say (a ∷ rest) o d h =
      let (front, back) = Holds-append m o (encode_entry (entry_of K a)) _ h in
      let laid = encode_entry-Laid m o (entry_of K a) d.0.fits front in
      let (here, ok) = step a o d.0 laid in
      let (there, oks) =
        entries_say rest (o + xattr_len (length (K.attr_name a.attr))) d.1
          (rw (length-encode_entry (entry_of K a)) at back) in
      (rw (here, there) refl, (ok, oks))
