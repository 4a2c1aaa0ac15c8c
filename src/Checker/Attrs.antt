-- ===== src/Checker/Attrs.antt =====
-- How ext4_checker.c prints an attribute area: the first entry, and a number of further ones.
use dist_lfsck.Checker.Lines.{EntryInfo, entry_info_at, Told, first_attribute, further_attribute}
use dist_lfsck.Disk.{Image, Memory, read_at}
use dist_lfsck.Prelude.{
  ℕ, zero, suc, ◌+◌, ◌-◌, ◌*◌, ◌/◌, List, [], ◌∷◌, ◌++◌, Bytes, ◌==◌, if◌then◌else◌,
}

-- The locals that the loops over attributes change; `prev_ind` and `count` are those of the
-- internal attributes, `prev_ind` and `int_count`, or of the external ones, `prev_ind_ext` and
-- `ext_count`.
pub record Cursor : Type 0 where
  pub ientry : Memory
  pub prev_ind : ℕ
  pub count : ℕ
  pub told : List Told

abbrev pub say : Told → Cursor → Cursor
say l c = record c { told = c.told ++ l ∷ [] }

-- `%s` of an array of `n` bytes and a final NUL: the bytes before the first NUL.
unfoldable pub c_string : ℕ → Memory → ℕ → Bytes
c_string zero m o = []
c_string (suc n) m o = if m o == 0 then [] else m o ∷ c_string n m (o + 1)

-- `char value[e_value_size + 1]`, cleared, with the value read in from `location`, as it is
-- printed.
unfoldable pub value_text : Image → ℕ → EntryInfo → Bytes
unfolding c_string
value_text image location x =
    c_string x.e_value_size (read_at image location x.e_value_size (λ k. 0)) 0

-- `read(fd, &test_ientry, sizeof(test_ientry))` at this place.
abbrev pub read_entry : Image → ℕ → Cursor → Cursor
read_entry image location c = record c { ientry = read_at image location 16 c.ientry }

-- `round((test_ientry.e_name_len - 1) / 4) * 4 + 4`; the division of ints gives 0 for -1 and 0.
abbrev pub cur_ind_of : ℕ → ℕ
cur_ind_of name_len = (name_len - 1) / 4 * 4 + 4

module _ (image : Image) (first : ℕ) (value_at : ℕ → ℕ) where
  -- One round for the entry of number `attr_count`, counted from the first at 0.
  unfoldable pub attr_round : ℕ → Cursor → Cursor
  unfolding value_text
  attr_round attr_count c =
      let attr2_location = first + 16 * attr_count + c.prev_ind in
      let cur_ind = cur_ind_of (c.ientry 0) in
      let d =
        read_entry image (attr2_location + cur_ind)
          (record c { prev_ind = c.prev_ind + cur_ind }) in
      let x = entry_info_at d.ientry in
      if x.e_value_size == 0
      then d
      else say
          (further_attribute (attr_count + 1) cur_ind x
            (value_text image (value_at x.e_value_offs) x))
          (record d { count = d.count + 1 })

  -- `for (attr_count = 1; ...; attr_count++)`, with `left` rounds to go.
  unfoldable pub attr_rounds : ℕ → ℕ → Cursor → Cursor
  unfolding attr_round
  attr_rounds zero attr_count c = c
  attr_rounds (suc left) attr_count c = attr_rounds left (attr_count + 1) (attr_round attr_count c)

  -- The first entry and its value, and then the further ones.
  unfoldable pub show_all : ℕ → Cursor → Cursor
  unfolding attr_rounds value_text
  show_all left c =
      let d = read_entry image first c in
      let x = entry_info_at d.ientry in
      attr_rounds left 1 (say (first_attribute x (value_text image (value_at x.e_value_offs) x)) d)
