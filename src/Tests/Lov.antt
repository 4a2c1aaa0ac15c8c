-- ===== src/Tests/Lov.antt =====
-- LOV attributes on small values.
use dist_lfsck.Cypher.{set_ost_oid}
use dist_lfsck.Disk.{Memory, load, store}
use dist_lfsck.Lustre.{LovUserMd, LovUserOstData, lov_user_md_at, lov_comp_md_at, lcm_entry_at}
use dist_lfsck.Mds.Lov.{objects_bytes, lov_bytes, shown_objects, lov_part-shows, lov_part-composite}
use dist_lfsck.Mds.{lov_part}
use dist_lfsck.Prelude.{ℕ, ◌%◌, ◌^◌, ◌≡◌, refl, List, [], ◌∷◌, arith, Bytes, codes}
use dist_lfsck.Report.{lov_metadata}
use dist_lfsck.Scan.Start.{started}
use dist_lfsck.Scan.{Scan, print, run}
use dist_lfsck.Tests.Sample.{patched, patched-lt, zeros}
use dist_lfsck.Xattr.{begins}

abbrev layout : LovUserMd
layout = record {
  lmm_magic = 0x0BD10BD0;
  lmm_pattern = 1;
  lmm_oi_id = 5;
  lmm_oi_seq = 0x200000401;
  lmm_stripe_size = 1048576;
  lmm_stripe_count = 2;
  lmm_layout_gen = 0;
}

abbrev first_object : LovUserOstData
first_object = record { l_ost_oi_id = 0x100000007; l_ost_oi_seq = 0; l_ost_gen = 0; l_ost_idx = 3 }

abbrev second_object : LovUserOstData
second_object = record { l_ost_oi_id = 9; l_ost_oi_seq = 0; l_ost_gen = 0; l_ost_idx = 1 }

abbrev plain_value : Memory
unfolding lov_bytes objects_bytes store
plain_value = patched ((0, lov_bytes layout (first_object ∷ second_object ∷ [])) ∷ [])

-- The name of an entry at offset 0.
abbrev lov_entry : Memory
lov_entry = patched ((16, codes "lov") ∷ [])

abbrev state : Scan
state = started zeros

lov_part-shows_example :
    lov_part 4 lov_entry 0 plain_value state
    ≡ run
        (set_ost_oid 4 ((0x100000007) % 2 ^ 32))
        (shown_objects 0 (first_object ∷ second_object ∷ []) (print (lov_metadata layout) state))
unfolding begins lov_bytes objects_bytes store
lov_part-shows_example =
    lov_part-shows 4 lov_entry 0 plain_value state layout first_object (second_object ∷ []) refl
      (omega arith) (omega arith) refl (omega arith) (omega arith)

-- A composite layout whose first component has the id 65537.
abbrev composite_bytes : List (ℕ × Bytes)
unfolding store
composite_bytes =
    (0, store 4 0x0BD60BD0) ∷ (4, store 4 128) ∷ (14, store 2 2) ∷ (32, store 4 65537) ∷ []

abbrev composite_value : Memory
composite_value = patched composite_bytes

lov_part-composite_example :
    lov_part 4 lov_entry 0 composite_value state
    ≡ run
        (set_ost_oid 4 (lcm_entry_at composite_value 0 0).lcme_id)
        (print (lov_metadata (lov_user_md_at composite_value 0)) state)
unfolding begins lov_comp_md_at load store
lov_part-composite_example =
    lov_part-composite 4 lov_entry 0 composite_value state refl (λ k. patched-lt composite_bytes k)
      refl refl

component_id : (lcm_entry_at composite_value 0 0).lcme_id ≡ 65537
unfolding lcm_entry_at load store
component_id = refl
