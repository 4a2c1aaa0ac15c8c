-- ===== src/Xattr/Names.antt =====
-- The scanners' tests on the first characters of a name, for a name that memory holds.
use dist_lfsck.Disk.{Memory, Holds}
use dist_lfsck.Prelude.{
  ℕ, ◌+◌, ◌≡◌, Bool, true, false, Option, none, some, [], ◌∷◌, ◌==◌, if◌then◌else◌, arith, Bytes,
}
use dist_lfsck.Xattr.{begins}

-- Whether the name begins with the text, or nothing, where the name ends before that is known.
abbrev pub starts_with : Bytes → Bytes → Option Bool
starts_with [] name = some true
starts_with (c ∷ cs) [] = none
starts_with (c ∷ cs) (x ∷ xs) = if x == c then starts_with cs xs else some false

-- The test looks at the characters of the name alone.
pub begins-starts_with :
    (m : Memory) (o : ℕ) (text name : Bytes) (b : Bool)
    → Holds m o name
    → starts_with text name ≡ some b
    → begins m o text ≡ b
unfolding begins
begins-starts_with m o [] name b h e = cc
begins-starts_with m o (c ∷ cs) [] b h e = cc
begins-starts_with m o (c ∷ cs) (x ∷ xs) b h e =
    ground (arith, begins-starts_with m (o + 1) cs xs b h.1)
