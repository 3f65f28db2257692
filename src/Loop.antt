-- ===== src/Loop.antt =====
-- matching_algorithms/loop/of1x_loop_match.c: the list of entries of a flow table, and the operations
-- on it. A table is used under its mutex, so that one operation runs at a time. `trace` has what the
-- operations told the platform and the entries that they freed, the latest first.
pub mod Modify
pub mod Lookup
pub mod Order
pub mod Invariant
pub mod Add
pub mod Remove
pub mod Keep
pub mod Contained
pub mod OutPort
pub mod Aggregate
pub mod Best
pub mod Members
pub mod Refine
pub mod Tests
use rofl_fork.Base.{
  ℕ, ◌+◌, ◌-◌, ◌%◌, ◌^◌, Bool, true, false, ◌&&◌, ◌||◌, not, List, [], ◌∷◌, ◌++◌, Option, none,
  some, ltb, leb, ◌==◌, if◌then◌else◌, find_first, any, RoflResult, success, failure,
}
use rofl_fork.FlowEntry.{
  FlowEntry, Event, RemoveReason, add_entry, remove_entry, modify_entry, freed,
  destroy_flow_entry_with_reason, update_flow_entry, flow_entry_check_overlap,
  flow_entry_check_contained, flow_entry_check_equal, port_any,
}
use rofl_fork.Group.Table.{group_any}
use rofl_fork.Match.{Match}
use rofl_fork.Match.Packet.{PacketMatches}
use rofl_fork.Match.Check.{check_match}

-- rofl_of1x_fm_result_t.
pub data FmResult : Type 0 where
  fm_success fm_failure fm_overlap : FmResult

pub data Strictness : Type 0 where
  not_strict strict : Strictness

-- of1x_flow_table_miss_config_t.
pub data TableMiss : Type 0 where
  to_controller continue drop : TableMiss

-- of1x_flow_table_config_t; a bitmap is a number.
pub record TableConfig : Type 0 where
  pub match : ℕ
  pub wildcards : ℕ
  pub write_actions : ℕ
  pub apply_actions : ℕ
  pub write_setfields : ℕ
  pub apply_setfields : ℕ
  pub metadata_match : ℕ
  pub metadata_write : ℕ
  pub instructions : ℕ
  pub table_miss_config : ℕ

-- of1x_stats_table_t.
pub record TableStats : Type 0 where
  pub lookup_count : ℕ
  pub matched_count : ℕ

-- of1x_flow_table_t without its timers and its links, with the trace.
pub record Table : Type 0 where
  pub number : ℕ
  pub entries : List FlowEntry
  pub num_of_entries : ℕ
  pub default_action : TableMiss
  pub config : TableConfig
  pub stats : TableStats
  pub trace : List Event

abbrev pub max_number_of_table_entries : ℕ
max_number_of_table_entries = 0xFFFFFFFF

abbrev pub tell : Event → Table → Table
tell e t = record t { trace = e ∷ t.trace }

-- The first entry that overlaps.
unfoldable pub check_overlapping : List FlowEntry → FlowEntry → Bool → ℕ → ℕ → Option FlowEntry
check_overlapping es e check_cookie out_port out_group =
    find_first (λ it. flow_entry_check_overlap it e true check_cookie out_port out_group) es

-- The first entry that is equal.
unfoldable pub check_identical : List FlowEntry → FlowEntry → ℕ → ℕ → Bool → Option FlowEntry
check_identical es e out_port out_group check_cookie =
    find_first (λ it. flow_entry_check_equal it e out_port out_group check_cookie) es

abbrev pub has_addr : ℕ → FlowEntry → Bool
has_addr a e = e.addr == a

-- The list without the entry at the address.
unfoldable pub unlink : ℕ → List FlowEntry → List FlowEntry
unlink a [] = []
unlink a (e ∷ es) = let rest = unlink a es in if has_addr a e then es else e ∷ rest

-- The entry points to this table.
abbrev pub points_to : Table → FlowEntry → Bool
points_to t e = elim e.table [ none ↦ false | some n ↦ n == t.number ]

-- The entry is unlinked and destroyed.
unfoldable pub detach : Table → FlowEntry → RemoveReason → Table
unfolding unlink
detach t e cause = record t {
  entries = unlink e.addr t.entries;
  num_of_entries = t.num_of_entries - 1;
  trace = destroy_flow_entry_with_reason e cause ++ remove_entry e ∷ t.trace;
}

-- of1x_remove_flow_entry_table_specific_imp. The entry must be a valid pointer; that its neighbours
-- point back to it, as the code checks, is that the list has it.
unfoldable pub remove_flow_entry_table_specific_imp :
    Table → FlowEntry → RemoveReason → RoflResult × Table
unfolding detach
remove_flow_entry_table_specific_imp t e cause =
    if t.num_of_entries == 0
    then (failure, t)
    else if not (points_to t e)
    then (failure, t)
    else if not (any (has_addr e.addr) t.entries)
    then (failure, t)
    else (success, detach t e cause)

-- The place of an entry: before the first one of lower priority, or of the same and no more matches.
abbrev pub goes_before : FlowEntry → FlowEntry → Bool
goes_before e it =
    ltb it.priority e.priority
    || (it.priority == e.priority && leb it.matches.num_elements e.matches.num_elements)

unfoldable pub insert_entry : FlowEntry → List FlowEntry → List FlowEntry
insert_entry e [] = e ∷ []
insert_entry e (it ∷ es) =
    let rest = insert_entry e es in if goes_before e it then e ∷ it ∷ es else it ∷ rest

-- The new entry goes on with the counters of the old one.
abbrev pub keep_counts : FlowEntry → FlowEntry → FlowEntry
keep_counts e existing = record e { stats = existing.stats }

-- The entry is placed, the old one deleted, and the platform told.
unfoldable pub place_entry : Table → FlowEntry → Option FlowEntry → Table
unfolding insert_entry remove_flow_entry_table_specific_imp
place_entry t e existing =
    let f = record e { table = some t.number } in
    let placed = record t {
      entries = insert_entry f t.entries;
      num_of_entries = t.num_of_entries + 1;
    } in
    elim existing [
      | none ↦ tell (add_entry f) placed
      | some old ↦
          let r = remove_flow_entry_table_specific_imp placed old RemoveReason.no_reason in
          tell (add_entry f) r.1
    ]

unfoldable pub add_flow_entry_table_imp : Table → FlowEntry → Bool → Bool → FmResult × Table
unfolding check_overlapping check_identical place_entry
add_flow_entry_table_imp t e check_overlap reset_counts =
    if t.num_of_entries == max_number_of_table_entries then (fm_failure, t) else elim t.entries [
      | [] ↦
          let f = record e { table = some t.number } in
          (
            fm_success,
            record t {
              entries = f ∷ [];
              num_of_entries = t.num_of_entries + 1;
              trace = add_entry f ∷ t.trace;
            },
          )
      | first ∷ others ↦
          if check_overlap
          then elim (check_overlapping t.entries e false port_any group_any) [
            | some o ↦ (fm_overlap, t)
            | none ↦ (fm_success, place_entry t e none)
          ]
          else elim (check_identical t.entries e port_any group_any false) [
            | none ↦ (fm_success, place_entry t e none)
            | some old ↦
                let f = if reset_counts then e else keep_counts e old in
                (fm_success, place_entry t f (some old))
          ]
    ]

-- The first equal entry goes.
unfoldable pub remove_strict :
    Table → List FlowEntry → FlowEntry → ℕ → ℕ → RemoveReason → RoflResult × Table
unfolding remove_flow_entry_table_specific_imp
remove_strict t [] e out_port out_group cause = (success, t)
remove_strict t (it ∷ es) e out_port out_group cause =
    let rest = remove_strict t es e out_port out_group cause in
    if flow_entry_check_equal it e out_port out_group true
    then remove_flow_entry_table_specific_imp t it cause
    else rest

-- Every contained entry goes. The list is the one that the loop has still to visit.
unfoldable pub remove_contained :
    Table → List FlowEntry → FlowEntry → ℕ → ℕ → RemoveReason → RoflResult × Table
unfolding remove_flow_entry_table_specific_imp
remove_contained t [] e out_port out_group cause = (success, t)
remove_contained t (it ∷ es) e out_port out_group cause =
    elim (flow_entry_check_contained it e false true out_port out_group false) [
      | true ↦
          let one = remove_flow_entry_table_specific_imp t it cause in
          elim one.0 [
            | failure ↦ (failure, one.1)
            | success ↦ remove_contained one.1 es e out_port out_group cause
          ]
      | false ↦ remove_contained t es e out_port out_group cause
    ]

unfoldable pub remove_flow_entry_table_non_specific_imp :
    Table → FlowEntry → Strictness → ℕ → ℕ → RemoveReason → RoflResult × Table
unfolding remove_strict remove_contained
remove_flow_entry_table_non_specific_imp t e s out_port out_group cause =
    if t.num_of_entries == 0 then (success, t) else elim s [
      | strict ↦ remove_strict t t.entries e out_port out_group cause
      | not_strict ↦ remove_contained t t.entries e out_port out_group cause
    ]

-- The entry to compare with and the specific entry: exactly one must be given.
unfoldable pub remove_flow_entry_loop :
    Table
    → Option FlowEntry
    → Option FlowEntry
    → Strictness
    → ℕ
    → ℕ
    → RemoveReason
    → RoflResult × Table
unfolding remove_flow_entry_table_non_specific_imp
remove_flow_entry_loop t none none s out_port out_group cause = (failure, t)
remove_flow_entry_loop t (some e) (some f) s out_port out_group cause = (failure, t)
remove_flow_entry_loop t (some e) none s out_port out_group cause =
    remove_flow_entry_table_non_specific_imp t e s out_port out_group cause
remove_flow_entry_loop t none (some f) s out_port out_group cause =
    remove_flow_entry_table_specific_imp t f cause
