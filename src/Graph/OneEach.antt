-- ===== src/Graph/OneEach.antt =====
-- Disks on which no inode has attributes of one kind that contradict each other.
use dist_lfsck.Cypher.{lma, pfid, fid_text}
use dist_lfsck.Graph.Attributes.{Attribute, Attribute-map}
use dist_lfsck.Graph.MdsSources.{OnMds}
use dist_lfsck.Graph.OstSources.{OnOst}
use dist_lfsck.Graph.Scans.{MdsLma, MdsLink, MdsLov, OstOid}
use dist_lfsck.Graph.{ost_oid_key, f_oid_key, fid_key}
use dist_lfsck.Lustre.{LuFid}
use dist_lfsck.Prelude.{ℕ, ◌≡◌, refl, ap, sym, ◌∙◌, List, Bytes}
use dist_lfsck.Scan.{Volume}
use dist_lfsck.Text.{hex}

-- The attributes of one kind in an inode do not contradict each other.
pub record OneEach (v : Volume) (offsets : ℕ → List ℕ) (w : Volume) (object_offsets : ℕ → List ℕ)
    : Type 0 where
  pub one_lma :
      (i : ℕ) (f g : LuFid)
      → Attribute v offsets i (MdsLma v f)
      → Attribute v offsets i (MdsLma v g)
      → f ≡ g
  pub one_link :
      (i : ℕ) (f g : LuFid)
      → Attribute v offsets i (MdsLink v f)
      → Attribute v offsets i (MdsLink v g)
      → f ≡ g
  pub one_lov :
      (i m n : ℕ) → Attribute v offsets i (MdsLov v m) → Attribute v offsets i (MdsLov v n) → m ≡ n
  pub one_oid :
      (i m n : ℕ)
      → Attribute w object_offsets i (OstOid w m)
      → Attribute w object_offsets i (OstOid w n)
      → m ≡ n

module _ (v : Volume) (offsets : ℕ → List ℕ) (w : Volume) (object_offsets : ℕ → List ℕ)
    (one : OneEach v offsets w object_offsets) where
  pub one_lma_text :
      (i : ℕ) (f : LuFid)
      → Attribute v offsets i (MdsLma v f)
      → (u : Bytes) → OnMds v offsets i (fid_key lma) u
      → u ≡ fid_text f
  one_lma_text i f x u y =
      sym y.says.1
      ∙ ap fid_text (one.one_lma i _ f (Attribute-map _ (MdsLma v _) y (λ h. (h.0, refl))) x)

  pub one_link_text :
      (i : ℕ) (f : LuFid)
      → Attribute v offsets i (MdsLink v f)
      → (u : Bytes) → OnMds v offsets i (fid_key pfid) u
      → u ≡ fid_text f
  one_link_text i f x u y =
      sym y.says.1
      ∙ ap fid_text (one.one_link i _ f (Attribute-map _ (MdsLink v _) y (λ h. (h.0, refl))) x)

  pub one_lov_text :
      (i n : ℕ)
      → Attribute v offsets i (MdsLov v n)
      → (u : Bytes) → OnMds v offsets i ost_oid_key u
      → u ≡ hex n
  one_lov_text i n x u y =
      sym y.says.1
      ∙ ap hex (one.one_lov i _ n (Attribute-map _ (MdsLov v _) y (λ h. (h.0, refl))) x)

  pub one_oid_text :
      (i n : ℕ)
      → Attribute w object_offsets i (OstOid w n)
      → (u : Bytes) → OnOst w object_offsets i f_oid_key u
      → u ≡ hex n
  one_oid_text i n x u y =
      sym y.says.1
      ∙ ap hex (one.one_oid i _ n (Attribute-map _ (OstOid w _) y (λ h. (h.0, refl))) x)
