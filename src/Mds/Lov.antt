-- ===== src/Mds/Lov.antt =====
-- What the LOV branch of mds_src.c does with the layouts that xattr_sk.h declares.
use dist_lfsck.Cypher.{set_ost_oid}
use dist_lfsck.Disk.Load.{read_field}
use dist_lfsck.Disk.{Memory, load, store, Holds, IsByteMemory}
use dist_lfsck.Lustre.{
  LovUserMd, LovUserOstData, lov_user_md_at, lmm_object_at, lov_comp_md_at, lcm_entry_at,
  lov_magic_comp_v1,
}
use dist_lfsck.Mds.{print_objects, ost_numbers, lov_part}
use dist_lfsck.Prelude.{
  ℕ, ◌+◌, ◌*◌, ◌%◌, ◌^◌, ◌<◌, ◌≡◌, refl, ap, ◌∙◌, true, List, [], ◌∷◌, ◌++◌, arith, Bytes, codes,
  length, All,
}
use dist_lfsck.Report.{lov_metadata, ost_object}
use dist_lfsck.Scan.Bytes.{load_low}
use dist_lfsck.Scan.{Scan, print, run}
use dist_lfsck.Xattr.{begins}

-- The fields are in the ranges of their types.
pub record IsObject (o : LovUserOstData) : Type 0 where
  pub id_small : o.l_ost_oi_id < 256 ^ 8
  pub seq_small : o.l_ost_oi_seq < 256 ^ 8
  pub gen_small : o.l_ost_gen < 256 ^ 4
  pub idx_small : o.l_ost_idx < 256 ^ 4

pub record IsLayout (d : LovUserMd) : Type 0 where
  pub magic_small : d.lmm_magic < 256 ^ 4
  pub pattern_small : d.lmm_pattern < 256 ^ 4
  pub oi_id_small : d.lmm_oi_id < 256 ^ 8
  pub oi_seq_small : d.lmm_oi_seq < 256 ^ 8
  pub size_small : d.lmm_stripe_size < 256 ^ 4
  pub count_small : d.lmm_stripe_count < 256 ^ 2
  pub layout_gen_small : d.lmm_layout_gen < 256 ^ 2

-- The objects, and the whole attribute, as Lustre writes them.
unfoldable pub objects_bytes : List LovUserOstData → Bytes
objects_bytes [] = []
objects_bytes (o ∷ os) =
    store 8 o.l_ost_oi_id
    ++ (store 8 o.l_ost_oi_seq
        ++ (store 4 o.l_ost_gen ++ (store 4 o.l_ost_idx ++ objects_bytes os)))

unfoldable pub lov_bytes : LovUserMd → List LovUserOstData → Bytes
lov_bytes d os =
    store 4 d.lmm_magic
    ++ (store 4 d.lmm_pattern
        ++ (store 8 d.lmm_oi_id
            ++ (store 8 d.lmm_oi_seq
                ++ (store 4 d.lmm_stripe_size
                    ++ (store 2 d.lmm_stripe_count
                        ++ (store 2 d.lmm_layout_gen ++ objects_bytes os))))))

-- The lines of these objects, from number `l` on.
abbrev pub shown_objects : ℕ → List LovUserOstData → Scan → Scan
shown_objects l [] s = s
shown_objects l (o ∷ os) s = shown_objects (l + 1) os (print (ost_object l o) s)

pub object_read :
    (value : Memory) (l : ℕ) (o : LovUserOstData) (os : List LovUserOstData)
    → IsObject o
    → Holds value (32 + 24 * l) (objects_bytes (o ∷ os))
    → (lmm_object_at value 0 l ≡ o) × Holds value (32 + 24 * (l + 1)) (objects_bytes os)
unfolding objects_bytes lmm_object_at
object_read value l o os small h =
    let p = 32 + 24 * l in
    let (id, h1) = read_field 8 value p o.l_ost_oi_id _ small.id_small h in
    let (seq, h2) = read_field 8 value (p + 8) o.l_ost_oi_seq _ small.seq_small h1 in
    let (gen, h3) = read_field 4 value (p + 8 + 8) o.l_ost_gen _ small.gen_small h2 in
    let (idx, h4) = read_field 4 value (p + 8 + 8 + 4) o.l_ost_idx _ small.idx_small h3 in
    let start : 0 + 32 + 24 * l ≡ p = omega arith in
    let third : p + 16 ≡ p + 8 + 8 = omega arith in
    let fourth : p + 20 ≡ p + 8 + 8 + 4 = omega arith in
    let next : 32 + 24 * (l + 1) ≡ p + 8 + 8 + 4 + 4 = omega arith in
    (rw (start, third, fourth, id, seq, gen, idx) refl, rw next h4)

print_objects-shown :
    (value : Memory) (l : ℕ) (os : List LovUserOstData) (s : Scan)
    → All IsObject os
    → Holds value (32 + 24 * l) (objects_bytes os)
    → print_objects (length os) l value s ≡ shown_objects l os s
unfolding print_objects
print_objects-shown value l [] s small h = refl
print_objects-shown value l (o ∷ os) s small h =
    let (e, rest) = object_read value l o os small.0 h in
    ap (λ z. print_objects (length os) (l + 1) value (print (ost_object l z) s)) e
    ∙ print_objects-shown value (l + 1) os (print (ost_object l o) s) small.1 rest

pub header_read :
    (value : Memory) (d : LovUserMd) (os : List LovUserOstData)
    → IsLayout d
    → Holds value 0 (lov_bytes d os)
    → (lov_user_md_at value 0 ≡ d) × Holds value 32 (objects_bytes os)
unfolding lov_bytes lov_user_md_at
header_read value d os small h =
    let (magic, h1) = read_field 4 value 0 d.lmm_magic _ small.magic_small h in
    let (pattern, h2) = read_field 4 value 4 d.lmm_pattern _ small.pattern_small h1 in
    let (oi_id, h3) = read_field 8 value 8 d.lmm_oi_id _ small.oi_id_small h2 in
    let (oi_seq, h4) = read_field 8 value 16 d.lmm_oi_seq _ small.oi_seq_small h3 in
    let (size, h5) = read_field 4 value 24 d.lmm_stripe_size _ small.size_small h4 in
    let (count, h6) = read_field 2 value 28 d.lmm_stripe_count _ small.count_small h5 in
    let (layout_gen, h7) = read_field 2 value 30 d.lmm_layout_gen _ small.layout_gen_small h6 in
    (rw (magic, pattern, oi_id, oi_seq, size, count, layout_gen) refl, h7)

-- Of a LOV EA that holds a layout and its objects as Lustre writes them, at least one and fewer
-- than 65535, and as many as the stripe count says, the MDS scanner prints the layout and all
-- objects in order, and sends the low 32 bits of the first object's id.
pub lov_part-shows :
    (i : ℕ) (m : Memory) (p : ℕ) (value : Memory) (s : Scan) (d : LovUserMd) (o : LovUserOstData)
    (os : List LovUserOstData)
    → begins m (p + 16) (codes "lov") ≡ true
    → IsLayout d
    → All IsObject (o ∷ os)
    → d.lmm_stripe_count ≡ length (o ∷ os)
    → length (o ∷ os) < 65535
    → Holds value 0 (lov_bytes d (o ∷ os))
    → lov_part i m p value s
      ≡ run
          (set_ost_oid i (o.l_ost_oi_id % 2 ^ 32))
          (shown_objects 0 (o ∷ os) (print (lov_metadata d) s))
unfolding lov_part
lov_part-shows i m p value s d o os is_lov small objects count few h =
    let (header, rest) = header_read value d (o ∷ os) small h in
    let (first, _) = object_read value 0 o os objects.0 rest in
    let shown = print_objects-shown value 0 (o ∷ os) (print (lov_metadata d) s) objects rest in
    let all : ost_numbers d.lmm_stripe_count ≡ length (o ∷ os) = ground arith in
    rw (is_lov, header, first, all, shown) refl

-- A composite layout is taken for a plain one, whose first object starts where the first
-- component does: with the padding that Lustre leaves zero, no object is printed, and the
-- component's id is sent as the object's.
pub lov_part-composite :
    (i : ℕ) (m : Memory) (p : ℕ) (value : Memory) (s : Scan)
    → begins m (p + 16) (codes "lov") ≡ true
    → IsByteMemory value
    → (lov_comp_md_at value 0).lcm_magic ≡ lov_magic_comp_v1
    → (lov_comp_md_at value 0).lcm_padding2 ≡ 0
    → lov_part i m p value s
      ≡ run
          (set_ost_oid i (lcm_entry_at value 0 0).lcme_id)
          (print (lov_metadata (lov_user_md_at value 0)) s)
unfolding lov_part print_objects lov_comp_md_at lcm_entry_at lov_user_md_at lmm_object_at
lov_part-composite i m p value s is_lov bytes magic zero_padding =
    let none_shown : load 2 value 28 ≡ 0 = unfold load in omega arith in
    rw (is_lov, none_shown, load_low value 32 bytes) refl
