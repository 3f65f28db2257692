-- ===== src/Statistics/Reports.antt =====
-- What the loops of flow statistics over entries and tables report, where there is memory.
use rofl_fork.Base.{
  ℕ, suc, ◌+◌, ◌%◌, ◌^◌, ◌≡◌, ◌<◌, ap, sym, ◌∙◌, refl, Bool, true, Bool-cases, inl, inr, List, [],
  ◌∷◌, ◌++◌, map, Option, none, some, length, keep, append_assoc, length-append, get_middle,
  set_middle, append_nil, if◌then◌else◌, arith, RoflResult, success, failure,
}
use rofl_fork.FlowEntry.{FlowEntry}
use rofl_fork.Loop.{Table}
use rofl_fork.Pipeline.{Pipeline}
use rofl_fork.Statistics.Copies.{Memory}
use rofl_fork.Statistics.Messages.{
  SingleFlow, FlowMessage, Platform, FlowRequest, init_stats_single_flow_msg,
  push_single_flow_stats_to_msg, updated, Report, before, report_entries, is_asked,
  get_flow_stats_loop, report_tables,
}
use rofl_fork.Statistics.Flows.{IsPlentiful, single, init_stats_single_flow_msg-Gives}

-- The entry as the hook leaves it, if it is reported.
abbrev pub refreshed : (FlowEntry → Bool) → Platform → FlowEntry → FlowEntry
refreshed p w e = if p e then updated w e else e

-- The messages of the entries, at the times when they are reported.
abbrev pub reported : Platform → List FlowEntry → List SingleFlow
reported w es = map (λ e. single w.leftover (w.clock e) (updated w e)) es

abbrev pub listing : List SingleFlow → ℕ → FlowMessage
listing fs n = record { flows = fs; num_of_entries = n }

-- The message with more flows.
abbrev pub extended : FlowMessage → List SingleFlow → FlowMessage
extended msg fs = listing (msg.flows ++ fs) ((msg.num_of_entries + length fs) % 2 ^ 32)

with_same : (fs gs : List SingleFlow) (m n : ℕ) → fs ≡ gs → m ≡ n → listing fs m ≡ listing gs n
with_same fs gs m n q r = rw (q, r) refl

extended_nil : (msg : FlowMessage) → msg.num_of_entries < 2 ^ 32 → extended msg [] ≡ msg
extended_nil msg h = with_same _ _ _ _ (append_nil msg.flows) (omega (arith, h))

extended_twice :
    (msg : FlowMessage) (fs gs : List SingleFlow)
    → extended (extended msg fs) gs ≡ extended msg (fs ++ gs)
extended_twice msg fs gs =
    with_same _ _ _ _ (append_assoc msg.flows fs gs) (let l = length-append fs gs in omega arith)

push_bounded :
    (msg : FlowMessage) (f : SingleFlow)
    → (push_single_flow_stats_to_msg msg f).num_of_entries < 2 ^ 32
unfolding push_single_flow_stats_to_msg
push_bounded msg f = omega arith

-- The report of some entries.
abbrev pub Reports : (FlowEntry → Bool) → Platform → List FlowEntry → FlowMessage → Report → Type 0
Reports p w es msg r =
    (r.0 ≡ success)
    × (r.1.0 ≡ map (refreshed p w) es)
    × (r.1.1.0 ≡ extended msg (reported w (keep p es)))
    × IsPlentiful r.1.1.1

report_entry :
    (p : FlowEntry → Bool) (w : Platform) (e : FlowEntry) (es : List FlowEntry) (msg : FlowMessage)
    (m k : Memory) (s : SingleFlow)
    → p e ≡ true
    → init_stats_single_flow_msg w.leftover (w.clock e) (updated w e) m ≡ (some s, k)
    → report_entries p w (e ∷ es) msg m
      ≡ before (updated w e) (report_entries p w es (push_single_flow_stats_to_msg msg s) k)
unfolding report_entries
report_entry p w e es msg m k s y q =
    let go = λ (f : Option SingleFlow × Memory). elim f.0 as (λ _. Report) [
      | none ↦ (failure, (updated w e ∷ es, (msg, f.1)))
      | some s ↦
          before (updated w e) (report_entries p w es (push_single_flow_stats_to_msg msg s) f.1)
    ] in
    rw (report_entries, y) (ap go q)

report_entries-Reports :
    (p : FlowEntry → Bool) (w : Platform) (es : List FlowEntry) (msg : FlowMessage) (m : Memory)
    → IsPlentiful m
    → msg.num_of_entries < 2 ^ 32
    → Reports p w es msg (report_entries p w es msg m)
unfolding report_entries keep
report_entries-Reports p w [] msg m l h = (refl, refl, sym (extended_nil msg h), l)
report_entries-Reports p w (e ∷ es) msg m l h = elim (Bool-cases (p e)) [
  | inr n ↦
      let (a, b, c, d) = report_entries-Reports p w es msg m l h in
      rw (report_entries, n) (a, ap (λ l. e ∷ l) b, c, d)
  | inl y ↦
      let s = single w.leftover (w.clock e) (updated w e) in
      let (k, q, j) = init_stats_single_flow_msg-Gives w.leftover (w.clock e) (updated w e) m l in
      let (a, b, c, d) =
        report_entries-Reports p w es (push_single_flow_stats_to_msg msg s) k j
          (push_bounded msg s) in
      rw (report_entry p w e es msg m k s y q, y)
        (
          a,
          ap (λ l. updated w e ∷ l) b,
          c ∙ extended_twice msg (s ∷ []) (reported w (keep p es)),
          d,
        )
]

module _ (w : Platform) (q : FlowRequest) (p : Pipeline) where
  -- The table with the entries as the hook leaves them.
  abbrev pub refreshed_table : Table → Table
  refreshed_table t = record t { entries = map (refreshed (is_asked p.of_ver q) w) t.entries }

  -- The messages of the entries that the request asks for, table by table.
  abbrev pub all_flows : List Table → List SingleFlow
  all_flows [] = []
  all_flows (t ∷ ts) = reported w (keep (is_asked p.of_ver q) t.entries) ++ all_flows ts

  -- The tables between the others are reported.
  abbrev pub IsReported :
      List Table
      → List Table
      → List Table
      → FlowMessage
      → Option (RoflResult × (Pipeline × (FlowMessage × Memory)))
      → Type 0
  IsReported ds ts us msg r =
      (m : Memory) × (r
        ≡ some (
          success,
          (
            record p { tables = ds ++ (map refreshed_table ts ++ us) },
            (extended msg (all_flows ts), m),
          ),
        ))
      × IsPlentiful m

  -- The memory after the report of a table.
  abbrev pub memory_after : Table → FlowMessage → Memory → Memory
  memory_after t msg m = (report_entries (is_asked p.of_ver q) w t.entries msg m).1.1.1

  report_table :
      (ds : List Table) (t : Table) (vs : List Table) (k : ℕ) (msg : FlowMessage) (m : Memory)
      → IsPlentiful m
      → msg.num_of_entries < 2 ^ 32
      → report_tables (suc k) (length ds) w q (record p { tables = ds ++ t ∷ vs }) msg m
        ≡ report_tables k
            (length ds + 1)
            w
            q
            (record p { tables = ds ++ refreshed_table t ∷ vs })
            (extended msg (reported w (keep (is_asked p.of_ver q) t.entries)))
            (memory_after t msg m)
  unfolding report_tables get_flow_stats_loop
  report_table ds t vs k msg m l h =
      let asked = is_asked p.of_ver q in
      let r = report_entries asked w t.entries msg m in
      let (a, b, c, d) = report_entries-Reports asked w t.entries msg m l h in
      let e = set_middle ds t vs (record t { entries = r.1.0 }) in
      rw (report_tables, get_middle ds t vs, a, e, b, c) refl

  pub report_tables-IsReported :
      (ds ts us : List Table) (msg : FlowMessage) (m : Memory)
      → IsPlentiful m
      → msg.num_of_entries < 2 ^ 32
      → IsReported ds ts us msg
          (report_tables (length ts) (length ds) w q (record p { tables = ds ++ (ts ++ us) }) msg m)
  unfolding report_tables get_flow_stats_loop
  report_tables-IsReported ds [] us msg m l h = (m, rw (extended_nil msg h) refl, l)
  report_tables-IsReported ds (t ∷ ts) us msg m l h =
      let asked = is_asked p.of_ver q in
      let u = refreshed_table t in
      let fs = reported w (keep asked t.entries) in
      let (a, b, c, d) = report_entries-Reports asked w t.entries msg m l h in
      let (n, e, k) =
        report_tables-IsReported (ds ++ u ∷ []) ts us (extended msg fs) (memory_after t msg m) d
          (omega arith) in
      let x = length-append ds (u ∷ []) in
      let y = append_assoc ds (u ∷ []) (ts ++ us) in
      let z = append_assoc ds (u ∷ []) (map refreshed_table ts ++ us) in
      let v = extended_twice msg fs (all_flows ts) in
      (n, report_table ds t (ts ++ us) (length ts) msg m l h ∙ rw (x, y, z, v) at e, k)
