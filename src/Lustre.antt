-- ===== src/Lustre.antt =====
-- The Lustre structures inside the attribute values (new_scan_code/xattr_sk.h): FIDs and their
-- byte order, the LMA, the link EA, the LOV EA and the parent FID of an OST object.
pub mod ByteOrder
pub mod Written
use dist_lfsck.Disk.{Memory, load, load_be, swab}
use dist_lfsck.Prelude.{ℕ, ◌+◌, ◌*◌}

-- `struct lu_fid`.
pub record LuFid : Type 0 where
  pub f_seq : ℕ
  pub f_oid : ℕ
  pub f_ver : ℕ

unfoldable pub lu_fid_at : Memory → ℕ → LuFid
lu_fid_at m o = record { f_seq = load 8 m o; f_oid = load 4 m (o + 8); f_ver = load 4 m (o + 12) }

-- The FID whose fields are stored with the most significant byte first.
unfoldable pub lu_fid_be_at : Memory → ℕ → LuFid
lu_fid_be_at m o = record {
  f_seq = load_be 0 8 m o;
  f_oid = load_be 0 4 m (o + 8);
  f_ver = load_be 0 4 m (o + 12);
}

-- `fid_seq`, `fid_oid`, `fid_ver`.
abbrev pub fid_seq : LuFid → ℕ
fid_seq fid = fid.f_seq

abbrev pub fid_oid : LuFid → ℕ
fid_oid fid = fid.f_oid

abbrev pub fid_ver : LuFid → ℕ
fid_ver fid = fid.f_ver

-- `fid_be_to_cpu`, on a little-endian machine: `__be64_to_cpu` and `__be32_to_cpu` swap bytes.
unfoldable pub fid_be_to_cpu : LuFid → LuFid
fid_be_to_cpu src = record {
  f_seq = swab 0 8 (fid_seq src);
  f_oid = swab 0 4 (fid_oid src);
  f_ver = swab 0 4 (fid_ver src);
}

-- `struct lustre_mdt_attrs`.
pub record LustreMdtAttrs : Type 0 where
  pub lma_compat : ℕ
  pub lma_incompat : ℕ
  pub lma_self_fid : LuFid

unfoldable pub lustre_mdt_attrs_at : Memory → ℕ → LustreMdtAttrs
lustre_mdt_attrs_at m o = record {
  lma_compat = load 4 m o;
  lma_incompat = load 4 m (o + 4);
  lma_self_fid = lu_fid_at m (o + 8);
}

-- `struct link_ea_header`, 24 bytes.
pub record LinkEaHeader : Type 0 where
  pub leh_magic : ℕ
  pub leh_reccount : ℕ
  pub leh_len : ℕ
  pub leh_overflow_time : ℕ
  pub leh_padding : ℕ

unfoldable pub link_ea_header_at : Memory → ℕ → LinkEaHeader
link_ea_header_at m o = record {
  leh_magic = load 4 m o;
  leh_reccount = load 4 m (o + 4);
  leh_len = load 8 m (o + 8);
  leh_overflow_time = load 4 m (o + 16);
  leh_padding = load 4 m (o + 20);
}

abbrev pub sizeof_link_ea_header : ℕ
sizeof_link_ea_header = 24

abbrev pub link_ea_magic : ℕ
link_ea_magic = 0x11EAF1DF

-- Offsets in the packed `struct link_ea_entry`, behind `lee_reclen[2]`.
abbrev pub lee_parent_fid : ℕ
lee_parent_fid = 2

abbrev pub lee_name : ℕ
lee_name = 18

-- `struct lov_user_md_v1`, packed; its objects start at byte 32 and take 24 bytes each.
pub record LovUserMd : Type 0 where
  pub lmm_magic : ℕ
  pub lmm_pattern : ℕ
  pub lmm_oi_id : ℕ
  pub lmm_oi_seq : ℕ
  pub lmm_stripe_size : ℕ
  pub lmm_stripe_count : ℕ
  pub lmm_layout_gen : ℕ

unfoldable pub lov_user_md_at : Memory → ℕ → LovUserMd
lov_user_md_at m o = record {
  lmm_magic = load 4 m o;
  lmm_pattern = load 4 m (o + 4);
  lmm_oi_id = load 8 m (o + 8);
  lmm_oi_seq = load 8 m (o + 16);
  lmm_stripe_size = load 4 m (o + 24);
  lmm_stripe_count = load 2 m (o + 28);
  lmm_layout_gen = load 2 m (o + 30);
}

-- `struct lov_user_ost_data_v1`.
pub record LovUserOstData : Type 0 where
  pub l_ost_oi_id : ℕ
  pub l_ost_oi_seq : ℕ
  pub l_ost_gen : ℕ
  pub l_ost_idx : ℕ

-- `lmm_objects[l]` of the attribute at `o`.
unfoldable pub lmm_object_at : Memory → ℕ → ℕ → LovUserOstData
lmm_object_at m o l =
    let p = o + 32 + 24 * l in
    record {
      l_ost_oi_id = load 8 m p;
      l_ost_oi_seq = load 8 m (p + 8);
      l_ost_gen = load 4 m (p + 16);
      l_ost_idx = load 4 m (p + 20);
    }

-- `struct lov_comp_md_entry_v1`: a component of a composite layout, 48 bytes.
pub record LuExtent : Type 0 where
  pub e_start : ℕ
  pub e_end : ℕ

pub record LovCompMdEntry : Type 0 where
  pub lcme_id : ℕ
  pub lcme_flags : ℕ
  pub lcme_extent : LuExtent
  pub lcme_offset : ℕ
  pub lcme_size : ℕ

-- `struct lov_comp_md_v1`, packed; its entries start at byte 32.
pub record LovCompMd : Type 0 where
  pub lcm_magic : ℕ
  pub lcm_size : ℕ
  pub lcm_layout_gen : ℕ
  pub lcm_flags : ℕ
  pub lcm_entry_count : ℕ
  pub lcm_mirror_count : ℕ
  pub lcm_padding2 : ℕ

abbrev pub lov_magic_comp_v1 : ℕ
lov_magic_comp_v1 = 0x0BD60BD0

unfoldable pub lov_comp_md_at : Memory → ℕ → LovCompMd
lov_comp_md_at m o = record {
  lcm_magic = load 4 m o;
  lcm_size = load 4 m (o + 4);
  lcm_layout_gen = load 4 m (o + 8);
  lcm_flags = load 2 m (o + 12);
  lcm_entry_count = load 2 m (o + 14);
  lcm_mirror_count = load 2 m (o + 16);
  lcm_padding2 = load 8 m (o + 24);
}

-- `lcm_entries[k]` of the attribute at `o`.
unfoldable pub lcm_entry_at : Memory → ℕ → ℕ → LovCompMdEntry
lcm_entry_at m o k =
    let p = o + 32 + 48 * k in
    record {
      lcme_id = load 4 m p;
      lcme_flags = load 4 m (p + 4);
      lcme_extent = record { e_start = load 8 m (p + 8); e_end = load 8 m (p + 16) };
      lcme_offset = load 4 m (p + 24);
      lcme_size = load 4 m (p + 28);
    }

-- `struct ost_layout` and `struct filter_fid`, both packed.
pub record OstLayout : Type 0 where
  pub ol_stripe_size : ℕ
  pub ol_stripe_count : ℕ
  pub ol_comp_start : ℕ
  pub ol_comp_end : ℕ
  pub ol_comp_id : ℕ

pub record FilterFid : Type 0 where
  pub ff_parent : LuFid
  pub ff_layout : OstLayout
  pub ff_layout_version : ℕ
  pub ff_range : ℕ

unfoldable pub filter_fid_at : Memory → ℕ → FilterFid
filter_fid_at m o = record {
  ff_parent = lu_fid_at m o;
  ff_layout = record {
    ol_stripe_size = load 4 m (o + 16);
    ol_stripe_count = load 4 m (o + 20);
    ol_comp_start = load 8 m (o + 24);
    ol_comp_end = load 8 m (o + 32);
    ol_comp_id = load 4 m (o + 40);
  };
  ff_layout_version = load 4 m (o + 44);
  ff_range = load 4 m (o + 48);
}

abbrev pub sizeof_lustre_mdt_attrs : ℕ
sizeof_lustre_mdt_attrs = 24

abbrev pub sizeof_filter_fid : ℕ
sizeof_filter_fid = 52
