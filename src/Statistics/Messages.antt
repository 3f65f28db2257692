-- ===== src/Statistics/Messages.antt =====
-- The messages of flow statistics.
use rofl_fork.Base.{
  ℕ, zero, suc, ◌+◌, ◌-◌, ◌*◌, ◌/◌, ◌%◌, ◌^◌, Bool, true, false, ◌&&◌, not, List, [], ◌∷◌, ◌++◌,
  Option, none, some, leb, ltb, ◌==◌, if◌then◌else◌, get_elem?, length, RoflResult, success,
  failure,
}
use rofl_fork.FlowEntry.{FlowEntry, FlowStats}
use rofl_fork.Instruction.{InstructionGroup}
use rofl_fork.Loop.{Table}
use rofl_fork.Loop.Lookup.{selected, flow_stats_entry}
use rofl_fork.Match.{Match, MatchGroup}
use rofl_fork.Pipeline.{Pipeline, set_table}
use rofl_fork.Statistics.Copies.{Memory, Leftover, later, copy_matches, copy_instruction_group}

-- of1x_stats_single_flow_msg_t. The priority and the timeouts have 16 bits, and the number of the table
-- has 8. The copy of no matches is NULL.
pub record SingleFlow : Type 0 where
  pub table_id : ℕ
  pub priority : ℕ
  pub cookie : ℕ
  pub duration_sec : ℕ
  pub duration_nsec : ℕ
  pub idle_timeout : ℕ
  pub hard_timeout : ℕ
  pub packet_count : ℕ
  pub byte_count : ℕ
  pub matches : List Match
  pub inst_grp : InstructionGroup

-- of1x_stats_flow_msg_t.
pub record FlowMessage : Type 0 where
  pub flows : List SingleFlow
  pub num_of_entries : ℕ

-- What the platform brings: the statistics of an entry after its hook, the clock in microseconds when
-- the entry is reported, and what new memory has in it.
pub record Platform : Type 0 where
  pub update_stats : FlowEntry → FlowStats
  pub clock : FlowEntry → ℕ
  pub leftover : Leftover

-- The upper half of the product, of 64 bits.
abbrev pub to_nsec : ℕ → ℕ
to_nsec usec = usec * 1000 / 2 ^ 32 % 2 ^ 32

-- The seconds and nanoseconds since the entry was created, by TIMERSUB.
unfoldable pub stats_flow_get_duration : ℕ → FlowEntry → ℕ × ℕ
stats_flow_get_duration now e =
    let since = e.stats.initial_time in
    let sec = now / 1000000 + (2 ^ 32 - since / 1000000 % 2 ^ 32) in
    let usec = now % 1000000 in
    let from = since % 1000000 in
    if ltb usec from
    then ((sec + (2 ^ 32 - 1)) % 2 ^ 32, to_nsec (usec + 1000000 - from))
    else (sec % 2 ^ 32, to_nsec (usec - from))

-- The message of an entry in memory that there was.
unfoldable pub fill_single_flow : Leftover → ℕ → FlowEntry → Memory → SingleFlow × Memory
unfolding stats_flow_get_duration
fill_single_flow w now e m =
    let d = stats_flow_get_duration now e in
    let is = copy_instruction_group w e.inst_grp m in
    (
      record {
        table_id = elim e.table [ none ↦ w.table_id | some t ↦ t % 2 ^ 8 ];
        priority = e.priority % 2 ^ 16;
        cookie = e.cookie;
        duration_sec = d.0;
        duration_nsec = d.1;
        idle_timeout = e.timer_info.idle_timeout % 2 ^ 16;
        hard_timeout = e.timer_info.hard_timeout % 2 ^ 16;
        packet_count = e.stats.packet_count;
        byte_count = e.stats.byte_count;
        matches = copy_matches w e.matches.elements;
        inst_grp = is.0;
      },
      is.1,
    )

unfoldable pub init_stats_single_flow_msg :
    Leftover → ℕ → FlowEntry → Memory → Option SingleFlow × Memory
unfolding fill_single_flow
init_stats_single_flow_msg w now e m = elim (m 0) [
  | none ↦ (none, later m)
  | some raw ↦ elim (m 1) [
    | none ↦ (none, later (later m))
    | some raw' ↦ let r = fill_single_flow w now e (later (later m)) in (some r.0, r.1)
  ]
]

unfoldable pub push_single_flow_stats_to_msg : FlowMessage → SingleFlow → FlowMessage
push_single_flow_stats_to_msg msg f = record {
  flows = msg.flows ++ f ∷ [];
  num_of_entries = (msg.num_of_entries + 1) % 2 ^ 32;
}

abbrev pub updated : Platform → FlowEntry → FlowEntry
updated w e = record e { stats = w.update_stats e }

-- The result, the entries with the statistics that the hook has brought, the message and the memory.
abbrev pub Report : Type 0
Report = RoflResult × (List FlowEntry × (FlowMessage × Memory))

abbrev pub before : FlowEntry → Report → Report
before e r = (r.0, (e ∷ r.1.0, r.1.1))

unfoldable pub report_entries :
    (FlowEntry → Bool) → Platform → List FlowEntry → FlowMessage → Memory → Report
unfolding init_stats_single_flow_msg push_single_flow_stats_to_msg
report_entries p w [] msg m = (success, ([], (msg, m)))
report_entries p w (e ∷ es) msg m =
    let f = init_stats_single_flow_msg w.leftover (w.clock e) (updated w e) m in
    elim (p e) [
      | false ↦ before e (report_entries p w es msg m)
      | true ↦ elim f.0 [
        | none ↦ (failure, (updated w e ∷ es, (msg, f.1)))
        | some s ↦
            before (updated w e) (report_entries p w es (push_single_flow_stats_to_msg msg s) f.1)
      ]
    ]

-- A request for flow statistics.
pub record FlowRequest : Type 0 where
  pub cookie : ℕ
  pub cookie_mask : ℕ
  pub out_port : ℕ
  pub out_group : ℕ
  pub matches : MatchGroup

-- The entry is one that the request asks for.
abbrev pub is_asked : ℕ → FlowRequest → FlowEntry → Bool
is_asked version q e =
    selected version (flow_stats_entry q.cookie q.cookie_mask q.matches) q.out_port q.out_group e

unfoldable pub get_flow_stats_loop :
    ℕ
    → Platform
    → FlowRequest
    → Table
    → FlowMessage
    → Memory
    → RoflResult × (Table × (FlowMessage × Memory))
unfolding report_entries
get_flow_stats_loop version w q t msg m =
    let r = report_entries (is_asked version q) w t.entries msg m in
    (r.0, (record t { entries = r.1.0 }, r.1.1))

-- OF1X_FLOW_TABLE_ALL.
abbrev pub flow_table_all : ℕ
flow_table_all = 255

-- The tables from a number on, so many of them.
unfoldable pub report_tables :
    ℕ
    → ℕ
    → Platform
    → FlowRequest
    → Pipeline
    → FlowMessage
    → Memory
    → Option (RoflResult × (Pipeline × (FlowMessage × Memory)))
unfolding get_flow_stats_loop
report_tables zero i w q p msg m = some (success, (p, (msg, m)))
report_tables (suc k) i w q p msg m = elim (get_elem? p.tables i) [
  | none ↦ none
  | some t ↦
      let r = get_flow_stats_loop p.of_ver w q t msg m in
      elim r.0 [
        | failure ↦ some (failure, (set_table p i r.1.0, r.1.1))
        | success ↦ report_tables k (i + 1) w q (set_table p i r.1.0) r.1.1.0 r.1.1.1
      ]
]

-- The cookie and its mask are passed in 32 bits.
abbrev pub cut_cookies : FlowRequest → FlowRequest
cut_cookies q = record q { cookie = q.cookie % 2 ^ 32; cookie_mask = q.cookie_mask % 2 ^ 32 }

abbrev pub is_no_table : Pipeline → ℕ → Bool
is_no_table p table_id = leb (length p.tables) table_id && not (table_id == flow_table_all)

-- The number of tables to go through, and the first.
abbrev pub table_range : Pipeline → ℕ → ℕ × ℕ
table_range p table_id = if table_id == flow_table_all then (length p.tables, 0) else (1, table_id)

-- The outer `none` is a table out of range, the inner one NULL; the pipeline is as the hook leaves it.
unfoldable pub get_flow_stats :
    Platform → Pipeline → ℕ → FlowRequest → Memory → Option (Option FlowMessage × Pipeline)
unfolding report_tables
get_flow_stats w p table_id q m = if is_no_table p table_id then some (none, p) else elim (m 0) [
  | none ↦ some (none, p)
  | some raw ↦
      let n = table_range p table_id in
      let start : FlowMessage = record { flows = []; num_of_entries = 0 } in
      elim (report_tables n.0 n.1 w (cut_cookies q) p start (later m)) [
        | none ↦ none
        | some r ↦ elim r.0 [ failure ↦ some (none, r.1.0) | success ↦ some (some r.1.1.0, r.1.0) ]
      ]
]
