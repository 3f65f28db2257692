-- ===== src/FlowEntry.antt =====
-- of1x_flow_entry.c and of1x_flow_entry.h: flow entries and the three ways to compare them. `addr` is
-- the address of an entry, and `table` the number of the table that it points to.
pub mod Validate
use rofl_fork.Base.{
  ℕ, ◌+◌, Bool, true, false, ◌&&◌, ◌||◌, not, bit_and, List, [], ◌∷◌, ◌++◌, Option, none, some,
  ◌==◌, if◌then◌else◌,
}
use rofl_fork.Match.{
  Match, MatchGroup, init_match_group, match_group_push_back, same_type, equal_matches, is_submatch,
}
use rofl_fork.Action.{write_actions_has, apply_actions_has}
use rofl_fork.Action.Types.{ActionType}
use rofl_fork.Group.Table.{group_any}
use rofl_fork.Instruction.{
  InstructionGroup, init_instruction_group, instruction_at, instruction_has, update_instructions,
}

-- OF1X_PORT_ANY.
abbrev pub port_any : ℕ
port_any = 0xffffffff

-- of1x_stats_flow_t; the time in microseconds.
pub record FlowStats : Type 0 where
  pub initial_time : ℕ
  pub packet_count : ℕ
  pub byte_count : ℕ

-- of1x_timers_info_t without the links into the lists of timers; the time in microseconds.
pub record TimerInfo : Type 0 where
  pub idle_timeout : ℕ
  pub hard_timeout : ℕ
  pub time_last_update : ℕ

pub record FlowEntry : Type 0 where
  pub addr : ℕ
  pub priority : ℕ
  pub table : Option ℕ
  pub matches : MatchGroup
  pub inst_grp : InstructionGroup
  pub cookie : ℕ
  pub cookie_mask : ℕ
  pub notify_removal : Bool
  pub timer_info : TimerInfo
  pub stats : FlowStats

-- An entry at the address that the allocation gave, at the time that the clock shows.
unfoldable pub init_flow_entry : ℕ → ℕ → Bool → FlowEntry
init_flow_entry addr now notify_removal = record {
  addr = addr;
  priority = 0;
  table = none;
  matches = init_match_group;
  inst_grp = init_instruction_group;
  cookie = 0;
  cookie_mask = 0;
  notify_removal = notify_removal;
  timer_info = record { idle_timeout = 0; hard_timeout = 0; time_last_update = 0 };
  stats = record { initial_time = now; packet_count = 0; byte_count = 0 };
}

pub data RemoveReason : Type 0 where
  idle_timeout hard_timeout delete group_delete no_reason : RemoveReason

-- What an operation tells the platform, the frees of entries, by address, and the calls of
-- __of1x_add_timer.
pub data Event : Type 0 where
  add_entry remove_entry : FlowEntry → Event
  modify_entry : FlowEntry → FlowEntry → Bool → Event
  flow_removed : RemoveReason → FlowEntry → Event
  freed : ℕ → Event
  timer_added : FlowEntry → Event

-- A reason that a removal is notified with.
abbrev pub is_reason : RemoveReason → Bool
is_reason no_reason = false
is_reason idle_timeout = true
is_reason hard_timeout = true
is_reason delete = true
is_reason group_delete = true

-- The events of __of1x_destroy_flow_entry_with_reason, the latest first. An entry that is in no table is not notified.
unfoldable pub destroy_flow_entry_with_reason : FlowEntry → RemoveReason → List Event
destroy_flow_entry_with_reason e reason = elim e.table [
  | none ↦ freed e.addr ∷ []
  | some t ↦
      if e.notify_removal && is_reason reason
      then freed e.addr ∷ flow_removed reason e ∷ []
      else freed e.addr ∷ []
]

unfoldable pub add_match_to_entry : FlowEntry → Match → FlowEntry
add_match_to_entry e m = record e { matches = match_group_push_back e.matches m }

-- __of1x_stats_flow_reset_counts.
abbrev pub stats_flow_reset_counts : FlowStats → FlowStats
stats_flow_reset_counts s = record s { packet_count = 0; byte_count = 0 }

-- The updated entry, and what is left of the new one.
unfoldable pub update_flow_entry : FlowEntry → FlowEntry → Bool → FlowEntry × FlowEntry
update_flow_entry e new reset_counts =
    let u = update_instructions e.inst_grp new.inst_grp in
    let s = if reset_counts then stats_flow_reset_counts e.stats else e.stats in
    (record e { inst_grp = u.0; stats = s }, record new { inst_grp = u.1 })

-- The cookies agree under the mask of the second entry.
abbrev pub same_cookie : FlowEntry → FlowEntry → Bool
same_cookie original e =
    e.cookie_mask == 0 || bit_and e.cookie e.cookie_mask == bit_and original.cookie e.cookie_mask

-- The test of a match against every match of its kind; then that of each match of a list.
unfoldable pub each_of_kind : (Match → Match → Bool) → Match → List Match → Bool
each_of_kind p m [] = true
each_of_kind p m (o ∷ os) = (not (same_type m o) || p m o) && each_of_kind p m os

unfoldable pub each_pair : (Match → Match → Bool) → List Match → List Match → Bool
unfolding each_of_kind
each_pair p [] os = true
each_pair p (m ∷ ms) os = each_of_kind p m os && each_pair p ms os

-- The actions at the array indices 3 and 1, where the code looks for the write and the apply actions.
unfoldable pub has_at_code : InstructionGroup → ActionType → ℕ → Bool
has_at_code g type value =
    write_actions_has (instruction_at g.instructions 3).write_actions type value
    || apply_actions_has (instruction_at g.instructions 1).apply_actions type value

-- The tests of the out group and the out port that the comparisons for overlap and equality end with.
unfoldable pub meets_out : FlowEntry → ℕ → ℕ → Bool
unfolding has_at_code
meets_out original out_port out_group =
    (out_group == group_any || has_at_code original.inst_grp ActionType.group out_group)
    && (out_port == port_any || has_at_code original.inst_grp ActionType.output out_port)

unfoldable pub flow_entry_check_overlap : FlowEntry → FlowEntry → Bool → Bool → ℕ → ℕ → Bool
unfolding each_pair
flow_entry_check_overlap original e check_priority check_cookie out_port out_group =
    (not check_cookie || same_cookie original e)
    && (not check_priority || bit_and e.priority 0xffff == bit_and original.priority 0xffff)
    && each_pair (λ m o. is_submatch m o || is_submatch o m) e.matches.elements
        original.matches.elements
    && meets_out original out_port out_group

unfoldable pub flow_entry_check_contained :
    FlowEntry → FlowEntry → Bool → Bool → ℕ → ℕ → Bool → Bool
unfolding each_pair
flow_entry_check_contained original sub check_priority check_cookie out_port out_group reverse =
    let side = if reverse then sub.inst_grp else original.inst_grp in
    (not check_cookie || same_cookie original sub)
    && (not check_priority || original.priority == sub.priority)
    && each_pair is_submatch sub.matches.elements original.matches.elements
    && (out_group == group_any || instruction_has side ActionType.group out_group)
    && (out_port == port_any || instruction_has side ActionType.output out_port)

-- The loop over both lists; where the first is shorter, it reads through NULL, which is `none`.
unfoldable pub equal_lists : List Match → List Match → Option Bool
equal_lists os [] = some true
equal_lists [] (m ∷ ms) = none
equal_lists (o ∷ os) (m ∷ ms) =
    let rest = equal_lists os ms in if equal_matches o m then rest else some false

-- The matches are compared if they are as many by their counts.
unfoldable pub compare_matches : MatchGroup → MatchGroup → Option Bool
unfolding equal_lists
compare_matches original g =
    if original.num_elements == g.num_elements
    then equal_lists original.elements g.elements
    else some false

abbrev pub is_equal : Option Bool → Bool
is_equal none = false
is_equal (some b) = b

-- The comparison of two entries, with its reads through NULL.
unfoldable pub compare_entries : FlowEntry → FlowEntry → ℕ → ℕ → Bool → Option Bool
unfolding compare_matches
compare_entries original e out_port out_group check_cookie =
    if (not check_cookie || same_cookie original e) && e.priority == original.priority
    then elim (compare_matches original.matches e.matches) [
      | none ↦ none
      | some b ↦ some (b && meets_out original out_port out_group)
    ]
    else some false

-- Its callers test a Boolean, for which a read through NULL counts as a difference; where the counts of
-- matches are right, there is none.
unfoldable pub flow_entry_check_equal : FlowEntry → FlowEntry → ℕ → ℕ → Bool → Bool
unfolding compare_entries
flow_entry_check_equal original e out_port out_group check_cookie =
    is_equal (compare_entries original e out_port out_group check_cookie)
