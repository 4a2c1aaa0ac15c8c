-- ===== src/Mds/Link.antt =====
-- The link EA that xattr_sk.h declares, as Lustre writes it, and what mds_src.c reads of it.
use dist_lfsck.Disk.BigEndian.{store_be, read_field_be}
use dist_lfsck.Disk.Load.{read_field}
use dist_lfsck.Disk.{Memory, store, Holds}
use dist_lfsck.Lustre.ByteOrder.{FidFits}
use dist_lfsck.Lustre.{LuFid, lu_fid_be_at, LinkEaHeader, link_ea_header_at}
use dist_lfsck.Prelude.{◌+◌, ◌^◌, ◌<◌, ◌≡◌, refl, List, [], ◌∷◌, ◌++◌, arith, Bytes, length}

-- The fields of the header are in the ranges of their types.
pub record IsHeader (h : LinkEaHeader) : Type 0 where
  pub magic_small : h.leh_magic < 256 ^ 4
  pub reccount_small : h.leh_reccount < 256 ^ 4
  pub len_small : h.leh_len < 256 ^ 8
  pub time_small : h.leh_overflow_time < 256 ^ 4
  pub padding_small : h.leh_padding < 256 ^ 4

-- One hard link: the directory that it stands in, and its name there.
pub record HardLink : Type 0 where
  pub parent : LuFid
  pub name : Bytes

-- An entry for each hard link, and the whole attribute, as Lustre writes them.
unfoldable pub links_bytes : List HardLink → Bytes
links_bytes [] = []
links_bytes (l ∷ ls) =
    store_be 2 (18 + length l.name)
    ++ (store_be 8 l.parent.f_seq
        ++ (store_be 4 l.parent.f_oid ++ (store_be 4 l.parent.f_ver ++ (l.name ++ links_bytes ls))))

unfoldable pub link_bytes : LinkEaHeader → List HardLink → Bytes
link_bytes h ls =
    store 4 h.leh_magic
    ++ (store 4 h.leh_reccount
        ++ (store 8 h.leh_len
            ++ (store 4 h.leh_overflow_time ++ (store 4 h.leh_padding ++ links_bytes ls))))

pub header_read :
    (value : Memory) (h : LinkEaHeader) (ls : List HardLink)
    → IsHeader h
    → Holds value 0 (link_bytes h ls)
    → (link_ea_header_at value 0 ≡ h) × Holds value 24 (links_bytes ls)
unfolding link_bytes link_ea_header_at
header_read value h ls small held =
    let (magic, h1) = read_field 4 value 0 h.leh_magic _ small.magic_small held in
    let (reccount, h2) = read_field 4 value 4 h.leh_reccount _ small.reccount_small h1 in
    let (len, h3) = read_field 8 value 8 h.leh_len _ small.len_small h2 in
    let (time, h4) = read_field 4 value 16 h.leh_overflow_time _ small.time_small h3 in
    let (padding, h5) = read_field 4 value 20 h.leh_padding _ small.padding_small h4 in
    (rw (magic, reccount, len, time, padding) refl, h5)

pub parent_read :
    (value : Memory) (l : HardLink) (ls : List HardLink)
    → FidFits l.parent
    → length l.name < 65518
    → Holds value 24 (links_bytes (l ∷ ls))
    → lu_fid_be_at value 26 ≡ l.parent
unfolding links_bytes lu_fid_be_at
parent_read value l ls fits short held =
    let (reclen, h1) = read_field_be 2 value 24 (18 + length l.name) _ (omega arith) held in
    let (seq, h2) = read_field_be 8 value 26 l.parent.f_seq _ (omega arith) h1 in
    let (oid, h3) = read_field_be 4 value 34 l.parent.f_oid _ (omega arith) h2 in
    let (ver, h4) = read_field_be 4 value 38 l.parent.f_ver _ (omega arith) h3 in
    rw (seq, oid, ver) refl
