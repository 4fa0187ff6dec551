-- ===== src/Attr/Compare.antt =====
-- Is a reply newer than what the inode knows: `nfs_inode_attrs_cmp` and what it calls, and
-- `nfs_refresh_inode_locked` (mynfs/inode.c). Counters and change attributes have 64 bits.
use mynfs.Base.{
  sub64, is_pos64, ℕ, ◌==◌, if◌then◌else◌, Bool, true, false, not, ◌&&◌, ◌||◌, Option, none, some,
}
use mynfs.Attr.Gaps.{Ooo, Fattr, ooo_record}

unfoldable pub attrs_cmp_generic : ℕ → ℕ → ℕ → Bool
attrs_cmp_generic gencount attr_gencount counter =
    is_pos64 (sub64 gencount attr_gencount) || is_pos64 (sub64 attr_gencount counter)

-- 1, 0 and -1.
pub data Cmp : Type 0 where
  newer same older : Cmp

unfoldable pub attrs_cmp_monotonic : ℕ → ℕ → Cmp
attrs_cmp_monotonic change iversion =
    if is_pos64 (sub64 change iversion)
    then newer
    else if sub64 change iversion == 0
    then same
    else older

unfoldable pub attrs_cmp_strict_monotonic : ℕ → ℕ → Cmp
unfolding attrs_cmp_monotonic
attrs_cmp_strict_monotonic change iversion = elim (attrs_cmp_monotonic change iversion) [
  | newer ↦ newer
  | _ ↦ older
]

-- NFS4_CHANGE_TYPE_IS_UNDEFINED, NFS4_CHANGE_TYPE_IS_TIME_METADATA, and the others.
pub data ChangeAttrType : Type 0 where
  undefined time_metadata counted : ChangeAttrType

-- What the inode and the server say: `attr_gencount`, the counter of generations, `i_version`, the
-- kind of the change attribute, and of `cache_validity` NFS_INO_INVALID_CHANGE and whether any of the
-- other attributes of a partial update is invalid.
pub record Inode : Type 0 where
  pub attr_gencount : ℕ
  pub generation_counter : ℕ
  pub iversion : ℕ
  pub change_attr_type : ChangeAttrType
  pub invalid_change : Bool
  pub invalid_others : Bool
  pub ooo : Ooo

abbrev pub cmp_by_type : ChangeAttrType → Option ℕ → ℕ → Cmp
cmp_by_type time_metadata (some change) iversion = attrs_cmp_monotonic change iversion
cmp_by_type counted (some change) iversion = attrs_cmp_strict_monotonic change iversion
cmp_by_type _ _ iversion = same

unfoldable pub inode_attrs_cmp : ℕ → Fattr → Inode → Cmp
unfolding attrs_cmp_generic attrs_cmp_monotonic attrs_cmp_strict_monotonic
inode_attrs_cmp gencount fattr inode =
    if attrs_cmp_generic gencount inode.attr_gencount inode.generation_counter
    then newer
    else cmp_by_type inode.change_attr_type fattr.change_attr inode.iversion

abbrev pub is_same : Cmp → Bool
is_same same = true
is_same _ = false

abbrev pub matches_partial : ChangeAttrType → Option ℕ → ℕ → Bool
matches_partial undefined change iversion = false
matches_partial _ none iversion = false
matches_partial _ (some change) iversion = is_same (attrs_cmp_monotonic change iversion)

unfoldable pub finish_partial_attr_update : Fattr → Inode → Bool
unfolding attrs_cmp_monotonic
finish_partial_attr_update fattr inode =
    not inode.invalid_change
    && (inode.invalid_others
        && matches_partial inode.change_attr_type fattr.change_attr inode.iversion)

-- What is done with the attributes: `nfs_update_inode`, `nfs_check_inode_attributes`, or nothing more.
pub data Outcome : Type 0 where
  update_inode check_attributes leave_inode : Outcome

abbrev pub after_record : Cmp → Inode → Option Ooo → Option (Outcome × Inode)
after_record cmp inode none = none
after_record cmp inode (some o) =
    some (if is_same cmp then check_attributes else leave_inode, record inode { ooo = o })

abbrev pub refresh_by : ℕ → ℕ → Bool → Cmp → Bool → Fattr → Inode → Option (Outcome × Inode)
refresh_by size fuel allocated newer partial fattr inode = some (update_inode, inode)
refresh_by size fuel allocated cmp true fattr inode = some (update_inode, inode)
refresh_by size fuel allocated cmp false fattr inode =
    after_record cmp inode (ooo_record size fuel allocated inode.ooo fattr)

unfoldable pub refresh_inode_locked : ℕ → ℕ → Bool → ℕ → Fattr → Inode → Option (Outcome × Inode)
unfolding inode_attrs_cmp finish_partial_attr_update ooo_record
refresh_inode_locked size fuel allocated gencount fattr inode =
    refresh_by size fuel allocated (inode_attrs_cmp gencount fattr inode)
      (finish_partial_attr_update fattr inode) fattr inode
