-- ===== src/Bitmap.antt =====
-- The bitmaps of a group, as the older scanners (mds_final.c and oss_final.c under intergrate/) go
-- through them: a loop over the bytes, and in it a loop over the bits of a byte.
pub mod Used
use dist_lfsck.Disk.{Memory}
use dist_lfsck.Flow.{Flow, next, ◌>>=◌}
use dist_lfsck.Prelude.{ℕ, zero, suc, ◌+◌, ◌/◌, ◌%◌, ◌^◌, true, false, Bool, ◌==◌, if◌then◌else◌}

-- `*(bitmap) >> j & 1 == 1`, which C reads as `(*bitmap >> j) & (1 == 1)`.
abbrev pub is_used : ℕ → ℕ → Bool
is_used byte j = byte / 2 ^ j % 2 == 1

module _ {ℓ} {S : Type ℓ} (body : ℕ → ℕ → S → Flow S) where
  -- `for (j = 0; j < 8; j++) if (...) ...` for byte `i`, with `left` rounds to go.
  unfoldable pub for_bits : ℕ → ℕ → ℕ → ℕ → S → Flow S
  for_bits zero j i byte s = next s
  for_bits (suc left) j i byte s =
      (if is_used byte j then body i j s else next s) >>= λ t. for_bits left (j + 1) i byte t

  -- `for (i = 0; i < ...; i++) { ...; bitmap++; }`, with `left` rounds to go.
  unfoldable pub for_bytes : ℕ → ℕ → Memory → S → Flow S
  unfolding for_bits
  for_bytes zero i bitmap s = next s
  for_bytes (suc left) i bitmap s =
      for_bits 8 0 i (bitmap i) s >>= λ t. for_bytes left (i + 1) bitmap t
