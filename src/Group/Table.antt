-- ===== src/Group/Table.antt =====
-- The data of of1x_group_table.h and the search in a group table. `addr` is the address of a group,
-- which an action that names the group points to.
use rofl_fork.Base.{ℕ, Bool, ◌==◌, List, Option, find_first}
use rofl_fork.Action.{ActionGroup}

-- of1x_group_table.h: OF1X_GROUP_MAX, OF1X_GROUP_ALL and OF1X_GROUP_ANY.
abbrev pub group_max : ℕ
group_max = 0xffffff00

abbrev pub group_all : ℕ
group_all = 0xfffffffc

abbrev pub group_any : ℕ
group_any = 0xffffffff

pub data GroupType : Type 0 where
  all select indirect ff : GroupType

pub record Bucket : Type 0 where
  pub weight : ℕ
  pub port : ℕ
  pub group : ℕ
  pub actions : ActionGroup
  pub packet_count : ℕ
  pub byte_count : ℕ

pub record BucketList : Type 0 where
  pub buckets : List Bucket
  pub num_of_buckets : ℕ

pub record Group : Type 0 where
  pub addr : ℕ
  pub id : ℕ
  pub type : GroupType
  pub packet_count : ℕ
  pub byte_count : ℕ
  pub ref_count : ℕ
  pub bc_list : BucketList
  pub attached : Bool
  pub num_of_output_actions : ℕ

pub record GroupTable : Type 0 where
  pub groups : List Group
  pub num_of_entries : ℕ

abbrev pub has_id : ℕ → Group → Bool
has_id id g = g.id == id

unfoldable pub group_search : GroupTable → ℕ → Option Group
unfolding find_first
group_search gt id = find_first (has_id id) gt.groups
