-- ===== src/Lustre/Written.antt =====
-- The LMA and the filter FID as Lustre writes them, and the FIDs that are read of them.
use dist_lfsck.Disk.Load.{read_field}
use dist_lfsck.Disk.{Memory, store, Holds}
use dist_lfsck.Lustre.ByteOrder.{FidFits}
use dist_lfsck.Lustre.{LuFid, lu_fid_at, LustreMdtAttrs, FilterFid}
use dist_lfsck.Prelude.{ℕ, ◌+◌, ◌^◌, ◌<◌, ◌≡◌, refl, ◌++◌, arith, Bytes, length}

unfoldable pub fid_bytes : LuFid → Bytes → Bytes
fid_bytes f rest = store 8 f.f_seq ++ (store 4 f.f_oid ++ (store 4 f.f_ver ++ rest))

fid_read :
    (value : Memory) (o : ℕ) (f : LuFid) (rest : Bytes)
    → FidFits f
    → Holds value o (fid_bytes f rest)
    → lu_fid_at value o ≡ f
unfolding fid_bytes lu_fid_at
fid_read value o f rest fits held =
    let (seq, h1) = read_field 8 value o f.f_seq _ (omega arith) held in
    let (oid, h2) = read_field 4 value (o + 8) f.f_oid _ (omega arith) h1 in
    let (ver, _) = read_field 4 value (o + 8 + 4) f.f_ver rest (omega arith) h2 in
    let third : o + 12 ≡ o + 8 + 4 = omega arith in rw (third, seq, oid, ver) refl

-- What stands behind the FID's own fields is not looked at.
unfoldable pub lma_bytes : LustreMdtAttrs → Bytes → Bytes
lma_bytes d rest = store 4 d.lma_compat ++ (store 4 d.lma_incompat ++ fid_bytes d.lma_self_fid rest)

pub record IsLma (d : LustreMdtAttrs) : Type 0 where
  pub compat_small : d.lma_compat < 256 ^ 4
  pub incompat_small : d.lma_incompat < 256 ^ 4
  pub self_fits : FidFits d.lma_self_fid

pub lma_read :
    (value : Memory) (d : LustreMdtAttrs) (rest : Bytes)
    → IsLma d
    → Holds value 0 (lma_bytes d rest)
    → lu_fid_at value 8 ≡ d.lma_self_fid
unfolding lma_bytes
lma_read value d rest small held =
    let (_, h1) = read_field 4 value 0 d.lma_compat _ small.compat_small held in
    let (_, h2) = read_field 4 value 4 d.lma_incompat _ small.incompat_small h1 in
    fid_read value 8 d.lma_self_fid rest small.self_fits h2

pub length-lma_bytes :
    (d : LustreMdtAttrs) (rest : Bytes) → length (lma_bytes d rest) ≡ 24 + length rest
unfolding lma_bytes fid_bytes store
length-lma_bytes d rest = omega arith

unfoldable pub filter_bytes : FilterFid → Bytes → Bytes
filter_bytes f rest = fid_bytes f.ff_parent (
    store 4 f.ff_layout.ol_stripe_size
    ++ (store 4 f.ff_layout.ol_stripe_count
        ++ (store 8 f.ff_layout.ol_comp_start
            ++ (store 8 f.ff_layout.ol_comp_end
                ++ (store 4 f.ff_layout.ol_comp_id
                    ++ (store 4 f.ff_layout_version ++ (store 4 f.ff_range ++ rest)))))))

pub parent_read :
    (value : Memory) (f : FilterFid) (rest : Bytes)
    → FidFits f.ff_parent
    → Holds value 0 (filter_bytes f rest)
    → lu_fid_at value 0 ≡ f.ff_parent
unfolding filter_bytes
parent_read value f rest fits held = fid_read value 0 f.ff_parent _ fits held

pub length-filter_bytes :
    (f : FilterFid) (rest : Bytes) → length (filter_bytes f rest) ≡ 52 + length rest
unfolding filter_bytes fid_bytes store
length-filter_bytes f rest = omega arith
