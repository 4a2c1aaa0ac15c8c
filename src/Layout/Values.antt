-- ===== src/Layout/Values.antt =====
-- The structures of the attribute values, as xattr_sk.h declares them, and the loads of these
-- structures. A structure inside another stands with its fields.
use dist_lfsck.Disk.{Memory}
use dist_lfsck.Layout.{
  CField, one, array, read_field, read_packed, packed_place, packed_sizeof, sizeof,
}
use dist_lfsck.Lustre.{
  lu_fid_at, lustre_mdt_attrs_at, link_ea_header_at, sizeof_link_ea_header, lee_parent_fid,
  lee_name, lov_user_md_at, lov_comp_md_at, filter_fid_at, sizeof_lustre_mdt_attrs,
  sizeof_filter_fid,
}
use dist_lfsck.Prelude.{◌≡◌, refl, ◌++◌, some, List, [], ◌∷◌, codes}

abbrev pub lu_fid : List CField
lu_fid = one "f_seq" 8 ∷ one "f_oid" 4 ∷ one "f_ver" 4 ∷ []

-- `struct ost_id`, by the first member of its union.
abbrev pub ost_id : List CField
ost_id = one "oi_id" 8 ∷ one "oi_seq" 8 ∷ []

abbrev pub lustre_mdt_attrs : List CField
lustre_mdt_attrs = one "lma_compat" 4 ∷ one "lma_incompat" 4 ∷ lu_fid

abbrev pub link_ea_header : List CField
link_ea_header =
    one "leh_magic" 4
    ∷ one "leh_reccount" 4
    ∷ one "leh_len" 8
    ∷ one "leh_overflow_time" 4
    ∷ one "leh_padding" 4
    ∷ []

abbrev pub link_ea_entry : List CField
link_ea_entry = array "lee_reclen" 1 2 ∷ array "lee_parent_fid" 1 16 ∷ array "lee_name" 1 0 ∷ []

abbrev pub lov_user_ost_data_v1 : List CField
lov_user_ost_data_v1 = ost_id ++ one "l_ost_gen" 4 ∷ one "l_ost_idx" 4 ∷ []

abbrev pub lov_user_md_v1 : List CField
lov_user_md_v1 =
    (one "lmm_magic" 4 ∷ one "lmm_pattern" 4 ∷ ost_id)
    ++ one "lmm_stripe_size" 4 ∷ one "lmm_stripe_count" 2 ∷ one "lmm_layout_gen" 2 ∷ []

abbrev pub lov_comp_md_entry_v1 : List CField
lov_comp_md_entry_v1 =
    one "lcme_id" 4
    ∷ one "lcme_flags" 4
    ∷ one "e_start" 8
    ∷ one "e_end" 8
    ∷ one "lcme_offset" 4
    ∷ one "lcme_size" 4
    ∷ array "lcme_padding" 8 2
    ∷ []

abbrev pub lov_comp_md_v1 : List CField
lov_comp_md_v1 =
    one "lcm_magic" 4
    ∷ one "lcm_size" 4
    ∷ one "lcm_layout_gen" 4
    ∷ one "lcm_flags" 2
    ∷ one "lcm_entry_count" 2
    ∷ one "lcm_mirror_count" 2
    ∷ array "lcm_padding1" 2 3
    ∷ one "lcm_padding2" 8
    ∷ []

abbrev pub ost_layout : List CField
ost_layout =
    one "ol_stripe_size" 4
    ∷ one "ol_stripe_count" 4
    ∷ one "ol_comp_start" 8
    ∷ one "ol_comp_end" 8
    ∷ one "ol_comp_id" 4
    ∷ []

abbrev pub filter_fid : List CField
filter_fid = lu_fid ++ (ost_layout ++ one "ff_layout_version" 4 ∷ one "ff_range" 4 ∷ [])

-- The equations for the values' readers: each field, and where what follows a structure starts.
abbrev pub ValueFieldsAgree : Memory → Type 0
ValueFieldsAgree m =
    (lustre_mdt_attrs_at m 0 ≡ record {
      lma_compat = read_field m lustre_mdt_attrs "lma_compat";
      lma_incompat = read_field m lustre_mdt_attrs "lma_incompat";
      lma_self_fid = record {
        f_seq = read_field m lustre_mdt_attrs "f_seq";
        f_oid = read_field m lustre_mdt_attrs "f_oid";
        f_ver = read_field m lustre_mdt_attrs "f_ver";
      };
    })
    × (link_ea_header_at m 0 ≡ record {
      leh_magic = read_field m link_ea_header "leh_magic";
      leh_reccount = read_field m link_ea_header "leh_reccount";
      leh_len = read_field m link_ea_header "leh_len";
      leh_overflow_time = read_field m link_ea_header "leh_overflow_time";
      leh_padding = read_field m link_ea_header "leh_padding";
    })
    × (lov_user_md_at m 0 ≡ record {
      lmm_magic = read_packed m lov_user_md_v1 "lmm_magic";
      lmm_pattern = read_packed m lov_user_md_v1 "lmm_pattern";
      lmm_oi_id = read_packed m lov_user_md_v1 "oi_id";
      lmm_oi_seq = read_packed m lov_user_md_v1 "oi_seq";
      lmm_stripe_size = read_packed m lov_user_md_v1 "lmm_stripe_size";
      lmm_stripe_count = read_packed m lov_user_md_v1 "lmm_stripe_count";
      lmm_layout_gen = read_packed m lov_user_md_v1 "lmm_layout_gen";
    })
    × (lov_comp_md_at m 0 ≡ record {
      lcm_magic = read_packed m lov_comp_md_v1 "lcm_magic";
      lcm_size = read_packed m lov_comp_md_v1 "lcm_size";
      lcm_layout_gen = read_packed m lov_comp_md_v1 "lcm_layout_gen";
      lcm_flags = read_packed m lov_comp_md_v1 "lcm_flags";
      lcm_entry_count = read_packed m lov_comp_md_v1 "lcm_entry_count";
      lcm_mirror_count = read_packed m lov_comp_md_v1 "lcm_mirror_count";
      lcm_padding2 = read_packed m lov_comp_md_v1 "lcm_padding2";
    })
    × (filter_fid_at m 0 ≡ record {
      ff_parent = record {
        f_seq = read_packed m filter_fid "f_seq";
        f_oid = read_packed m filter_fid "f_oid";
        f_ver = read_packed m filter_fid "f_ver";
      };
      ff_layout = record {
        ol_stripe_size = read_packed m filter_fid "ol_stripe_size";
        ol_stripe_count = read_packed m filter_fid "ol_stripe_count";
        ol_comp_start = read_packed m filter_fid "ol_comp_start";
        ol_comp_end = read_packed m filter_fid "ol_comp_end";
        ol_comp_id = read_packed m filter_fid "ol_comp_id";
      };
      ff_layout_version = read_packed m filter_fid "ff_layout_version";
      ff_range = read_packed m filter_fid "ff_range";
    })

-- The sizes that the scanners' offsets rest on.
abbrev pub ValueSizesAgree : Type 0
ValueSizesAgree =
    (sizeof_lustre_mdt_attrs ≡ sizeof lustre_mdt_attrs)
    × (sizeof_link_ea_header ≡ sizeof link_ea_header)
    × (sizeof_filter_fid ≡ packed_sizeof filter_fid)
    × (packed_place 0 link_ea_entry (codes "lee_parent_fid") ≡ some (lee_parent_fid, 1))
    × (packed_place 0 link_ea_entry (codes "lee_name") ≡ some (lee_name, 1))
    × (packed_sizeof lov_user_md_v1 ≡ 32)
    × (packed_sizeof lov_user_ost_data_v1 ≡ 24)
    × (packed_sizeof lov_comp_md_v1 ≡ 32)
    × (sizeof lov_comp_md_entry_v1 ≡ 48)

pub value_fields_agree : (m : Memory) → ValueFieldsAgree m
unfolding lustre_mdt_attrs_at lu_fid_at link_ea_header_at lov_user_md_at lov_comp_md_at
    filter_fid_at
value_fields_agree m = (refl, refl, refl, refl, refl)

pub value_sizes_agree : ValueSizesAgree
value_sizes_agree = (refl, refl, refl, refl, refl, refl, refl, refl, refl)
