-- ===== src/Xattr/Encode.antt =====
-- Entries laid out in memory as ext4 lays them out, and the scanners' walk that reads them back.
use mathlib.Core.Path.{ap₂}
use dist_lfsck.Disk.Load.{load_stored, length-store, Holds-append}
use dist_lfsck.Disk.{Memory, load, store, Holds}
use dist_lfsck.Flow.{Flow, next, each}
use dist_lfsck.Prelude.{
  ℕ, suc, ◌+◌, ◌-◌, ◌^◌, ◌%◌, ◌<◌, ◌≡◌, ◌≢◌, refl, ap, ◌∙◌, List, [], ◌∷◌, ◌++◌, append_assoc,
  append-nil, arith, Bytes, length, length-append, length-replicate, replicate, All,
}
use dist_lfsck.Xattr.Walk.{walk-each}
use dist_lfsck.Xattr.{XattrEntry, read_bytes, entry_at, xattr_len, xattr_next, walk, Chain}

-- The fields fit their widths; an empty name in a zero entry is the terminator, so none is empty.
pub record Fits (x : XattrEntry) : Type 0 where
  pub named : 0 < length x.e_name
  pub name_fits : length x.e_name < 256
  pub index_fits : x.e_name_index < 256
  pub offs_fits : x.e_value_offs < 256 ^ 2
  pub block_fits : x.e_value_block < 256 ^ 4
  pub size_fits : x.e_value_size < 256 ^ 4
  pub hash_fits : x.e_hash < 256 ^ 4

-- The zeros behind a name of `n` bytes, up to the next multiple of four.
abbrev padding : ℕ → ℕ
padding n = (4 - n % 4) % 4

-- What stands behind the two leading bytes of the fixed part.
abbrev tail_bytes : XattrEntry → Bytes
tail_bytes x =
    store 2 x.e_value_offs
    ++ (store 4 x.e_value_block
        ++ (store 4 x.e_value_size
            ++ (store 4 x.e_hash ++ (x.e_name ++ replicate (padding (length x.e_name)) 0))))

abbrev pub encode_entry : XattrEntry → Bytes
encode_entry x = length x.e_name ∷ x.e_name_index ∷ tail_bytes x

-- The entries in order, and the zero word that ends them.
abbrev pub encode_entries : List XattrEntry → Bytes
encode_entries [] = store 4 0
encode_entries (x ∷ xs) = encode_entry x ++ encode_entries xs

pub length-encode_entry : (x : XattrEntry) → length (encode_entry x) ≡ xattr_len (length x.e_name)
length-encode_entry x = simp (length-append, length-store, length-replicate) (omega arith)

-- The four fields and the name, each where the entry's reader looks for it.
pub record Laid (m : Memory) (o : ℕ) (x : XattrEntry) : Type 0 where
  pub name_len : m o ≡ length x.e_name
  pub index : m (o + 1) ≡ x.e_name_index
  pub offs : load 2 m (o + 2) ≡ x.e_value_offs
  pub block : load 4 m (o + 4) ≡ x.e_value_block
  pub size : load 4 m (o + 8) ≡ x.e_value_size
  pub hash : load 4 m (o + 12) ≡ x.e_hash
  pub name : Holds m (o + 16) x.e_name

-- A stored field, and what stands behind it at the next offset.
take_field :
    (n : ℕ) (m : Memory) (o p v : ℕ) (rest : Bytes)
    → v < 256 ^ n
    → o + n ≡ p
    → Holds m o (store n v ++ rest)
    → (load n m o ≡ v) × Holds m p rest
take_field n m o p v rest fits e h =
    let (front, back) = Holds-append m o (store n v) rest h in
    let at : o + length (store n v) ≡ p = omega (arith, length-store n v) in
    (load_stored n m o v fits front, rw at at back)

pub encode_entry-Laid :
    (m : Memory) (o : ℕ) (x : XattrEntry) → Fits x → Holds m o (encode_entry x) → Laid m o x
encode_entry-Laid m o x f (len, (index, h)) =
    let two : o + 1 + 1 ≡ o + 2 = omega arith in
    let (offs, h4) =
      take_field 2 m (o + 2) (o + 4) x.e_value_offs _ f.offs_fits (omega arith) (rw two at h) in
    let (block, h8) =
      take_field 4 m (o + 4) (o + 8) x.e_value_block _ f.block_fits (omega arith) h4 in
    let (size, h12) =
      take_field 4 m (o + 8) (o + 12) x.e_value_size _ f.size_fits (omega arith) h8 in
    let (hash, h16) = take_field 4 m (o + 12) (o + 16) x.e_hash _ f.hash_fits (omega arith) h12 in
    record {
      name_len = len;
      index = index;
      offs = offs;
      block = block;
      size = size;
      hash = hash;
      name = (Holds-append m (o + 16) x.e_name _ h16).0;
    }

read_bytes-Holds :
    (m : Memory) (o : ℕ) (bs : Bytes) → Holds m o bs → read_bytes (length bs) m o ≡ bs
unfolding read_bytes
read_bytes-Holds m o [] h = refl
read_bytes-Holds m o (b ∷ bs) h = ap₂ ◌∷◌ h.0 (read_bytes-Holds m (o + 1) bs h.1)

pub entry_at-Laid : (m : Memory) (o : ℕ) (x : XattrEntry) → Laid m o x → entry_at m o ≡ x
unfolding entry_at
entry_at-Laid m o x l =
    let name : read_bytes (m o) m (o + 16) ≡ x.e_name =
      rw (l.name_len) (read_bytes-Holds m (o + 16) x.e_name l.name) in
    λ i. record {
      e_name_index = l.index i;
      e_value_offs = l.offs i;
      e_value_block = l.block i;
      e_value_size = l.size i;
      e_hash = l.hash i;
      e_name = name i;
    }

-- A laid-out entry is not taken for the terminator: its first byte is not zero.
load-ne_zero : (m : Memory) (o : ℕ) → 0 < m o → load 4 m o ≢ 0
unfolding load
load-ne_zero m o h e = absurd (omega arith)

abbrev pub starts : ℕ → List XattrEntry → List ℕ
starts o [] = []
starts o (x ∷ xs) = o ∷ starts (o + xattr_len (length x.e_name)) xs

abbrev pub end_of : ℕ → List XattrEntry → ℕ
end_of o [] = o
end_of o (x ∷ xs) = end_of (o + xattr_len (length x.e_name)) xs

-- The entries written at `o` are a chain up to their terminator.
pub encode_entries-Chain :
    (m : Memory) (xs : List XattrEntry) (o : ℕ)
    → All Fits xs
    → Holds m o (encode_entries xs)
    → Chain m o (starts o xs) (end_of o xs)
encode_entries-Chain m [] o f h = (refl, load_stored 4 m o 0 (omega arith) h)
encode_entries-Chain m (x ∷ xs) o f h =
    let (front, back) = Holds-append m o (encode_entry x) (encode_entries xs) h in
    let laid = encode_entry-Laid m o x f.0 front in
    let at : xattr_next m o ≡ o + xattr_len (length x.e_name) = omega (arith, laid.name_len) in
    let behind : Holds m (o + xattr_len (length x.e_name)) (encode_entries xs) =
      rw (length-encode_entry x) at back in
    (
      refl,
      load-ne_zero m o (omega (arith, laid.name_len, f.0.named)),
      rw at (encode_entries-Chain m xs (o + xattr_len (length x.e_name)) f.1 behind),
    )

-- The body that collects the entry it stands at.
abbrev pub collect : Memory → ℕ → List XattrEntry → Flow (List XattrEntry)
collect m p seen = next (seen ++ entry_at m p ∷ [])

each-collect :
    (m : Memory) (xs : List XattrEntry) (o : ℕ) (seen : List XattrEntry)
    → All Fits xs
    → Holds m o (encode_entries xs)
    → each (collect m) (starts o xs) seen ≡ next (seen ++ xs)
unfolding each
each-collect m [] o seen f h = rw append-nil
each-collect m (x ∷ xs) o seen f h =
    let (front, back) = Holds-append m o (encode_entry x) (encode_entries xs) h in
    let laid = encode_entry-Laid m o x f.0 front in
    let behind : Holds m (o + xattr_len (length x.e_name)) (encode_entries xs) =
      rw (length-encode_entry x) at back in
    rw (entry_at-Laid m o x laid) (
      each-collect m xs (o + xattr_len (length x.e_name)) (seen ++ x ∷ []) f.1 behind
      ∙ ap next (append_assoc seen (x ∷ []) xs))

pub length-starts : (xs : List XattrEntry) (o : ℕ) → length (starts o xs) ≡ length xs
length-starts [] o = refl
length-starts (x ∷ xs) o = ap suc (length-starts xs (o + xattr_len (length x.e_name)))

-- Whatever entries are laid out in memory as ext4 lays them out, each padded with zeros to the next
-- multiple of four bytes and with a name and its fields in range, the scanners' loop reads back
-- just these entries, in order, and then stops behind the last one.
pub walk-encode_entries :
    (m : Memory) (xs : List XattrEntry) (fuel o : ℕ)
    → All Fits xs
    → length xs < fuel
    → Holds m o (encode_entries xs)
    → walk fuel m (collect m) o [] ≡ next xs
walk-encode_entries m xs fuel o f enough h =
    walk-each m (collect m) (starts o xs) fuel o (end_of o xs) []
      (omega (arith, length-starts xs o)) (encode_entries-Chain m xs o f h)
    ∙ each-collect m xs o [] f h
