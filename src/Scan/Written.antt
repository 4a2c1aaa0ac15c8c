-- ===== src/Scan/Written.antt =====
-- Inodes and attributes as they have been written to the disk, and what a scanner's reads find of
-- them; the attributes that a scanner knows are a parameter.
use dist_lfsck.Disk.Transfer.{on_device}
use dist_lfsck.Disk.{Memory, load, Holds}
use dist_lfsck.Prelude.{
  ℕ, suc, ◌+◌, ◌<◌, ◌≤◌, ◌≡◌, refl, ap, true, false, List, [], ◌∷◌, map, ◌==◌, Bytes, length, All,
}
use dist_lfsck.Scan.Directory.Quiet.{ListsBlock}
use dist_lfsck.Scan.{Volume, is_dir, inode_location}
use dist_lfsck.Xattr.Encode.{Fits, encode_entries, starts}
use dist_lfsck.Xattr.{XattrEntry, xattr_len}

-- The attributes that a scanner tells apart: their names, the bytes of their values, and which
-- are in order.
pub record AttrKind : Type 1 where
  pub Attr : Type 0
  pub attr_name : Attr → Bytes
  pub attr_value : Attr → Bytes
  pub IsAttr : Attr → Type 0

-- An attribute, and those fields of its entry that the attribute does not determine.
pub record Placed (K : AttrKind) : Type 0 where
  pub attr : K.Attr
  pub index : ℕ
  pub offs : ℕ
  pub block : ℕ
  pub hash : ℕ

-- An inode with no attribute area, or one with a mode and attributes.
pub data Inode (K : AttrKind) : Type 0 where
  bare : Inode K
  node : ℕ → List (Placed K) → Inode K

-- Where ext4 puts the header of the attributes, behind the 128 bytes of the first inode and the
-- extra ones that it counts, and where the entries begin.
abbrev pub header_at : Memory → ℕ
header_at m = 128 + load 2 m 128

abbrev pub first_entry : Memory → ℕ
first_entry m = header_at m + 4

module _ (K : AttrKind) where
  abbrev pub entry_of : Placed K → XattrEntry
  entry_of a = record {
    e_name_index = a.index;
    e_value_offs = a.offs;
    e_value_block = a.block;
    e_value_size = length (K.attr_value a.attr);
    e_hash = a.hash;
    e_name = K.attr_name a.attr;
  }

  -- The offsets of the entries, the first of which stands at `o`.
  abbrev pub places : ℕ → List (Placed K) → List ℕ
  places o attrs = starts o (map entry_of attrs)

  pub length-places : (attrs : List (Placed K)) (o : ℕ) → length (places o attrs) ≡ length attrs
  length-places [] o = refl
  length-places (a ∷ rest) o =
      ap suc (length-places rest (o + xattr_len (length (K.attr_name a.attr))))

  -- The value stands where ext4 keeps it, inside the inode: `e_value_offs` bytes behind the inode's
  -- first entry.
  pub record OnDisk (v : Volume) (i : ℕ) (m : Memory) (a : Placed K) : Type 0 where
    pub valid : K.IsAttr a.attr
    pub fits : Fits (entry_of a)
    pub inside : first_entry m + a.offs + length (K.attr_value a.attr) ≤ v.inode_size
    pub held :
        Holds
          (on_device v.image (inode_location v i))
          (first_entry m + a.offs)
          (K.attr_value a.attr)

  module _ (v : Volume) (i : ℕ) where
    -- The device from the inode on, where the scanner looks for inode `i`.
    abbrev pub on_disk : Memory
    on_disk = on_device v.image (inode_location v i)

    -- The attribute area on the device, its entries inside the inode.
    pub record IsArea (mode : ℕ) (attrs : List (Placed K)) : Type 0 where
      pub marked : load 4 on_disk (header_at on_disk) ≡ 0xEA020000
      pub moded : load 2 on_disk 0 ≡ mode
      pub entries : Holds on_disk (first_entry on_disk) (encode_entries (map entry_of attrs))
      pub room : first_entry on_disk + length (encode_entries (map entry_of attrs)) ≤ v.inode_size
      pub values : All (OnDisk v i on_disk) attrs
      pub few : length attrs < v.fuel
      pub lists : is_dir mode ≡ true → ListsBlock v i on_disk

    abbrev pub Describes : Inode K → Type 0
    Describes bare = (load 4 on_disk (header_at on_disk) == 0xEA020000) ≡ false
    Describes (node mode attrs) = IsArea mode attrs

    -- The inode stands on the device, where the scanner looks for it.
    pub record IsWritten (x : Inode K) : Type 0 where
      pub inside : inode_location v i + v.inode_size ≤ v.image.size
      pub header : header_at on_disk + 4 ≤ v.inode_size
      pub describes : Describes x

    -- The offsets of the inode's entries.
    abbrev pub offsets_of : Inode K → List ℕ
    offsets_of bare = []
    offsets_of (node mode attrs) = places (first_entry on_disk) attrs
