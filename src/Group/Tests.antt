-- ===== src/Group/Tests.antt =====
-- A group of one bucket, and runs of the operations of of1x_group_table.c on it.
use rofl_fork.Action.Types.{action_code}
use rofl_fork.Base.{All, ℕ, ◌≡◌, ◌≢◌, refl, true, [], ◌∷◌, none, some}
use rofl_fork.Action.{Action, init_action_group}
use rofl_fork.Action.Types.{ActionType}
use rofl_fork.Group.{
  init_group_table, init_bucket_list, insert_bucket_in_list, init_bucket, group_add, group_modify,
  check_group_parameters,
}
use rofl_fork.Group.Invariant.{IsGroupTable, group_add-IsGroupTable, group_modify-IsGroupTable}
use rofl_fork.Group.Search.{group_add-search, group_modify-search}
use rofl_fork.Group.Table.{BucketList, Group, GroupTable, GroupType, group_search}
use rofl_fork.Match.{min_version, max_version}

abbrev pub to_port : ℕ → Action
to_port n = record {
  type = ActionType.output;
  field = record { hi = n; lo = 0 };
  group = none;
  ver_req = record { min_ver = min_version; max_ver = max_version };
}

-- One bucket that sends to the port.
abbrev pub one_bucket : ℕ → BucketList
unfolding init_bucket_list insert_bucket_in_list init_bucket init_action_group
one_bucket n =
    insert_bucket_in_list init_bucket_list (init_bucket 0 0 0 (init_action_group (to_port n ∷ [])))

init_group_table-IsGroupTable : IsGroupTable init_group_table
unfolding init_group_table
init_group_table-IsGroupTable = record { groups = tt; distinct = tt; count = refl }

abbrev pub one_group : GroupTable
unfolding group_add init_group_table
one_group = (group_add (some 64) init_group_table GroupType.all 5 (one_bucket 1)).1

pub one_group-IsGroupTable : IsGroupTable one_group
unfolding one_group
one_group-IsGroupTable =
    group_add-IsGroupTable (some 64) init_group_table GroupType.all 5 (one_bucket 1)
      init_group_table-IsGroupTable

pub one_group-attached : All (λ g. g.attached ≡ true) one_group.groups
unfolding one_group group_search one_bucket action_code
one_group-attached = (refl, tt)

group_add-IsGroupTable_example :
    IsGroupTable (group_add (some 128) one_group GroupType.indirect 6 (one_bucket 2)).1
group_add-IsGroupTable_example =
    group_add-IsGroupTable (some 128) one_group GroupType.indirect 6 (one_bucket 2)
      one_group-IsGroupTable

group_modify-IsGroupTable_example :
    IsGroupTable (group_modify one_group GroupType.indirect 5 (one_bucket 2)).1
group_modify-IsGroupTable_example =
    group_modify-IsGroupTable one_group GroupType.indirect 5 (one_bucket 2) one_group-IsGroupTable

group_add-search_example :
    ((g : Group) × (group_search
          (group_add (some 128) one_group GroupType.indirect 6 (one_bucket 2)).1
          6
        ≡ some g)
      × (g.id ≡ 6)
      × (g.type ≡ GroupType.indirect)
      × (g.bc_list ≡ (check_group_parameters GroupType.indirect 6 (one_bucket 2)).1))
    × ((k : ℕ)
        → k ≢ 6
        → group_search (group_add (some 128) one_group GroupType.indirect 6 (one_bucket 2)).1 k
          ≡ group_search one_group k)
unfolding group_add group_search one_group one_bucket action_code
group_add-search_example =
    group_add-search (some 128) one_group GroupType.indirect 6 (one_bucket 2) refl

group_modify-search_example :
    ((g : Group) × (group_search one_group 5 ≡ some g)
      × (group_search (group_modify one_group GroupType.indirect 5 (one_bucket 2)).1 5
          ≡ some (record g {
            bc_list = (check_group_parameters GroupType.indirect 5 (one_bucket 2)).1;
            type = GroupType.indirect;
            attached = true;
          })))
    × ((k : ℕ)
        → k ≢ 5
        → group_search (group_modify one_group GroupType.indirect 5 (one_bucket 2)).1 k
          ≡ group_search one_group k)
unfolding group_modify one_bucket action_code group_search one_group
group_modify-search_example = group_modify-search one_group GroupType.indirect 5 (one_bucket 2) refl
