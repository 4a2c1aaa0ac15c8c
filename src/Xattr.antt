-- ===== src/Xattr.antt =====
-- The extended attributes behind an inode: the entry and its macros (IS_LAST_ENTRY,
-- EXT4_XATTR_LEN, EXT4_XATTR_NEXT) and the loop over the entries, which the scanners share.
pub mod Walk
pub mod Encode
pub mod Names
use dist_lfsck.Disk.{Memory, load}
use dist_lfsck.Flow.{Flow, next, spins, ◌>>=◌}
use dist_lfsck.Prelude.{
  ℕ, zero, suc, ◌+◌, ◌*◌, ◌/◌, ◌≡◌, ◌≢◌, Bool, true, false, ◌&&◌, List, [], ◌∷◌, ◌++◌, ◌==◌, Bytes,
}

-- `struct ext4_xattr_entry` with the name that stands behind it.
pub record XattrEntry : Type 0 where
  pub e_name_index : ℕ
  pub e_value_offs : ℕ
  pub e_value_block : ℕ
  pub e_value_size : ℕ
  pub e_hash : ℕ
  pub e_name : Bytes

unfoldable pub read_bytes : ℕ → Memory → ℕ → Bytes
read_bytes zero m o = []
read_bytes (suc n) m o = m o ∷ read_bytes n m (o + 1)

-- The entry at offset `o`; the first byte is `e_name_len`, and the name starts at byte 16.
unfoldable pub entry_at : Memory → ℕ → XattrEntry
entry_at m o = record {
  e_name_index = m (o + 1);
  e_value_offs = load 2 m (o + 2);
  e_value_block = load 4 m (o + 4);
  e_value_size = load 4 m (o + 8);
  e_hash = load 4 m (o + 12);
  e_name = read_bytes (m o) m (o + 16);
}

-- IS_LAST_ENTRY: the first four bytes are zero.
abbrev pub is_last_entry : Memory → ℕ → Bool
is_last_entry m o = load 4 m o == 0

-- EXT4_XATTR_LEN: (name_len + 3 + sizeof(struct ext4_xattr_entry)) & ~3.
abbrev pub xattr_len : ℕ → ℕ
xattr_len name_len = (name_len + 3 + 16) / 4 * 4

-- EXT4_XATTR_NEXT.
abbrev pub xattr_next : Memory → ℕ → ℕ
xattr_next m o = o + xattr_len (m o)

-- `while (!IS_LAST_ENTRY(entry)) { ...; entry = EXT4_XATTR_NEXT(entry); }`; the loop has no bound
-- of its own, so `fuel` grants it a number of tests.
unfoldable pub walk {ℓ} : {S : Type ℓ} → ℕ → Memory → (ℕ → S → Flow S) → ℕ → S → Flow S
walk zero m body o s = spins
walk (suc fuel) m body o s = elim (is_last_entry m o) [
  | true ↦ next s
  | false ↦ body o s >>= λ t. walk fuel m body (xattr_next m o) t
]

-- `(char)entry->e_name[0] == 'l' && ...`: the name's bytes from `o` on begin with this text.
unfoldable pub begins : Memory → ℕ → Bytes → Bool
begins m o [] = true
begins m o (c ∷ cs) = m o == c && begins m (o + 1) cs

-- The entries stand at these offsets, one behind the other, and `end` is the terminator's.
abbrev pub Chain : Memory → ℕ → List ℕ → ℕ → Type 0
Chain m o [] end = (o ≡ end) × (load 4 m o ≡ 0)
Chain m o (p ∷ ps) end = (o ≡ p) × (load 4 m o ≢ 0) × Chain m (xattr_next m o) ps end
