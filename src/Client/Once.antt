-- ===== src/Client/Once.antt =====
-- What one statement does to the number of relations between two nodes.
use dist_lfsck.Client.Ties.{TieStore, IsLawful, same_tie, joined}
use dist_lfsck.Client.{
  MdsNode, OssNode, Tie, parent_of, mds_parent_of, oss_child_of, Manner, creating, merging,
  create_mds, create_oss, relate,
}
use dist_lfsck.Prelude.{
  ℕ, ◌≤◌, ◌≡◌, ◌≢◌, refl, sym, ap, ◌∙◌, arith, Bool, true, false, if◌then◌else◌, none,
}

abbrev pub once : Bool → ℕ
once b = if b then 1 else 0

module _ (S : TieStore) (law : IsLawful S) where
  -- No two nodes that do not match are related, and no two are related twice.
  abbrev pub AtMostOnce : S.Graph → Tie → Type 0
  AtMostOnce g t = (i j : ℕ) → S.count g t i j ≤ once (joined S g t i j)

  pub joined-create_mds :
      (n : MdsNode) (g : S.Graph) (t : Tie) (i j : ℕ)
      → S.mds_at g n.inode_num ≡ none
      → once (joined S g t i j) ≤ once (joined S (S.run (create_mds n) g) t i j)
  joined-create_mds n g parent_of i j fresh =
      ground (arith, law.mds-create_mds n g i fresh, law.mds-create_mds n g j fresh, fresh)
  joined-create_mds n g mds_parent_of i j fresh =
      ground (arith, law.mds-create_mds n g i fresh, law.oss-create_mds n g j, fresh)
  joined-create_mds n g oss_child_of i j fresh =
      ground (arith, law.oss-create_mds n g i, law.mds-create_mds n g j fresh, fresh)

  joined-create_oss :
      (n : OssNode) (g : S.Graph) (t : Tie) (i j : ℕ)
      → S.oss_at g n.inode_num ≡ none
      → once (joined S g t i j) ≤ once (joined S (S.run (create_oss n) g) t i j)
  joined-create_oss n g parent_of i j fresh =
      ground (arith, law.mds-create_oss n g i, law.mds-create_oss n g j)
  joined-create_oss n g mds_parent_of i j fresh =
      ground (arith, law.mds-create_oss n g i, law.oss-create_oss n g j fresh, fresh)
  joined-create_oss n g oss_child_of i j fresh =
      ground (arith, law.oss-create_oss n g i fresh, law.mds-create_oss n g j, fresh)

  pub joined-relate :
      (m : Manner) (u : Tie) (g : S.Graph) (t : Tie) (i j : ℕ)
      → joined S (S.run (relate m u) g) t i j ≡ joined S g t i j
  joined-relate m u g parent_of i j = rw (law.mds-relate m u g i, law.mds-relate m u g j)
  joined-relate m u g mds_parent_of i j = rw (law.mds-relate m u g i, law.oss-relate m u g j)
  joined-relate m u g oss_child_of i j = rw (law.oss-relate m u g i, law.mds-relate m u g j)

  -- Two nodes are related once if they match, and else not at all.
  abbrev pub Exact : S.Graph → Tie → Type 0
  Exact g t = (i j : ℕ) → S.count g t i j ≡ once (joined S g t i j)

  abbrev pub Untied : S.Graph → Tie → Type 0
  Untied g t = (i j : ℕ) → S.count g t i j ≡ 0

  pub Untied-empty : (t : Tie) → Untied S.empty t
  Untied-empty t i j = law.count-empty t i j

  pub Untied-create_mds :
      (n : MdsNode) (g : S.Graph) (t : Tie) → Untied g t → Untied (S.run (create_mds n) g) t
  Untied-create_mds n g t h i j = law.count-create_mds n g t i j ∙ h i j

  pub Untied-create_oss :
      (n : OssNode) (g : S.Graph) (t : Tie) → Untied g t → Untied (S.run (create_oss n) g) t
  Untied-create_oss n g t h i j = law.count-create_oss n g t i j ∙ h i j

  -- A statement for another relation leaves the counts alone.
  pub count-relate_other :
      (m : Manner) (u : Tie) (g : S.Graph) (t : Tie) (i j : ℕ)
      → same_tie u t ≡ false
      → S.count (S.run (relate m u) g) t i j ≡ S.count g t i j
  count-relate_other creating u g t i j other =
      rw (law.count-creating u g t i j, other) (omega arith)
  count-relate_other merging u g t i j other = rw (law.count-merging u g t i j, other) refl

  pub Untied-relate :
      (m : Manner) (u : Tie) (g : S.Graph) (t : Tie)
      → same_tie u t ≡ false
      → Untied g t
      → Untied (S.run (relate m u) g) t
  Untied-relate m u g t other h i j = count-relate_other m u g t i j other ∙ h i j

  pub Exact-relate :
      (m : Manner) (u : Tie) (g : S.Graph) (t : Tie)
      → same_tie u t ≡ false
      → Exact g t
      → Exact (S.run (relate m u) g) t
  Exact-relate m u g t other h i j =
      count-relate_other m u g t i j other ∙ h i j ∙ ap once (sym (joined-relate m u g t i j))

  pub Exact-create_oss :
      (n : OssNode) (g : S.Graph) → Exact g parent_of → Exact (S.run (create_oss n) g) parent_of
  Exact-create_oss n g h i j =
      law.count-create_oss n g parent_of i j
      ∙ h i j
      ∙ rw (law.mds-create_oss n g i, law.mds-create_oss n g j) refl

  pub AtMostOnce-create_mds :
      (n : MdsNode) (g : S.Graph) (t : Tie)
      → S.mds_at g n.inode_num ≡ none
      → Exact g t
      → AtMostOnce (S.run (create_mds n) g) t
  AtMostOnce-create_mds n g t fresh h i j =
      omega (arith, law.count-create_mds n g t i j, h i j, joined-create_mds n g t i j fresh)

  pub AtMostOnce-create_oss :
      (n : OssNode) (g : S.Graph) (t : Tie)
      → S.oss_at g n.inode_num ≡ none
      → Exact g t
      → AtMostOnce (S.run (create_oss n) g) t
  AtMostOnce-create_oss n g t fresh h i j =
      omega (arith, law.count-create_oss n g t i j, h i j, joined-create_oss n g t i j fresh)

  pub AtMostOnce-relate :
      (m : Manner) (u : Tie) (g : S.Graph) (t : Tie)
      → same_tie u t ≡ false
      → AtMostOnce g t
      → AtMostOnce (S.run (relate m u) g) t
  AtMostOnce-relate m u g t other h i j =
      rw (count-relate_other m u g t i j other, joined-relate m u g t i j) (h i j)

  same_tie_refl : (t : Tie) → same_tie t t ≡ true
  same_tie_refl parent_of = refl
  same_tie_refl mds_parent_of = refl
  same_tie_refl oss_child_of = refl

  -- CREATE relates each two that match once, if none were related.
  pub Exact-creating : (t : Tie) (g : S.Graph) → Untied g t → Exact (S.run (relate creating t) g) t
  Exact-creating t g h i j =
      rw (law.count-creating t g t i j, h i j, same_tie_refl t, joined-relate creating t g t i j)
        (omega arith)

  -- MERGE does where none were related twice.
  pub Exact-merging :
      (t : Tie) (g : S.Graph) → AtMostOnce g t → Exact (S.run (relate merging t) g) t
  Exact-merging t g h i j =
      rw (law.count-merging t g t i j, same_tie_refl t, joined-relate merging t g t i j)
        (ground (arith, h i j))

  pub mds_at-create_other :
      (n : MdsNode) (g : S.Graph) (i : ℕ)
      → S.mds_at g n.inode_num ≡ none
      → S.mds_at g i ≡ none
      → i ≢ n.inode_num
      → S.mds_at (S.run (create_mds n) g) i ≡ none
  mds_at-create_other n g i fresh free other = ground (arith, law.mds-create_mds n g i fresh)

  pub oss_at-create_other :
      (n : OssNode) (g : S.Graph) (i : ℕ)
      → S.oss_at g n.inode_num ≡ none
      → S.oss_at g i ≡ none
      → i ≢ n.inode_num
      → S.oss_at (S.run (create_oss n) g) i ≡ none
  oss_at-create_other n g i fresh free other = ground (arith, law.oss-create_oss n g i fresh)
