-- ===== src/Lustre/ByteOrder.antt =====
-- The parent FID of a link EA, which is stored big-endian, and `fid_be_to_cpu`.
use dist_lfsck.Disk.Swap.{swab-load, swab-lt}
use dist_lfsck.Disk.Load.{load-lt}
use dist_lfsck.Disk.{Memory, IsByteMemory}
use dist_lfsck.Lustre.{LuFid, lu_fid_at, lu_fid_be_at, fid_be_to_cpu}
use dist_lfsck.Prelude.{ℕ, ◌+◌, ◌^◌, ◌<◌, ◌≡◌, arith}

-- Converting the FID that was loaded little-endian gives the FID that is stored big-endian.
pub fid_be_to_cpu-lu_fid_at :
    (m : Memory) (o : ℕ) → IsByteMemory m → fid_be_to_cpu (lu_fid_at m o) ≡ lu_fid_be_at m o
unfolding fid_be_to_cpu lu_fid_at lu_fid_be_at
fid_be_to_cpu-lu_fid_at m o h = λ i. record {
  f_seq = swab-load 0 8 m o h i;
  f_oid = swab-load 0 4 m (o + 8) h i;
  f_ver = swab-load 0 4 m (o + 12) h i;
}

-- The fields of a FID fit their C types.
pub record FidFits (f : LuFid) : Type 0 where
  pub seq_fits : f.f_seq < 2 ^ 64
  pub oid_fits : f.f_oid < 2 ^ 32
  pub ver_fits : f.f_ver < 2 ^ 32

pub lu_fid_at-FidFits : (m : Memory) (o : ℕ) → IsByteMemory m → FidFits (lu_fid_at m o)
unfolding lu_fid_at
lu_fid_at-FidFits m o b = record {
  seq_fits = omega (arith, load-lt 8 m o b);
  oid_fits = omega (arith, load-lt 4 m (o + 8) b);
  ver_fits = omega (arith, load-lt 4 m (o + 12) b);
}

pub fid_be_to_cpu-FidFits : (f : LuFid) → FidFits (fid_be_to_cpu f)
unfolding fid_be_to_cpu
fid_be_to_cpu-FidFits f = record {
  seq_fits = omega (arith, swab-lt 8 f.f_seq);
  oid_fits = omega (arith, swab-lt 4 f.f_oid);
  ver_fits = omega (arith, swab-lt 4 f.f_ver);
}
