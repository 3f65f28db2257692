-- ===== src/Statistics/Answers.antt =====
-- The answers of of1x_get_flow_stats, and the durations in them.
use rofl_fork.Base.{
  ℕ, suc, ◌+◌, ◌-◌, ◌/◌, ◌%◌, ◌^◌, ◌≡◌, ◌≤◌, ◌<◌, ap, ◌∙◌, refl, false, Bool-cases, inl, inr, List,
  [], ◌∷◌, ◌++◌, map, Option, some, length, length-append, ltb, ◌==◌, arith,
}
use rofl_fork.FlowEntry.{FlowEntry}
use rofl_fork.Loop.{Table}
use rofl_fork.Pipeline.{Pipeline}
use rofl_fork.Statistics.Copies.{Memory, later}
use rofl_fork.Statistics.Messages.{
  FlowMessage, Platform, FlowRequest, stats_flow_get_duration, flow_table_all, report_tables,
  cut_cookies, is_no_table, table_range, get_flow_stats,
}
use rofl_fork.Statistics.Flows.{IsPlentiful}
use rofl_fork.Statistics.Reports.{listing, refreshed_table, all_flows, report_tables-IsReported}

-- The answer to a request that goes through some tables, the others being as they were.
abbrev pub answer :
    Platform
    → FlowRequest
    → Pipeline
    → List Table
    → List Table
    → List Table
    → Option (Option FlowMessage × Pipeline)
answer w q p ds ts us =
    let fs = all_flows w q p ts in
    some (
      some (listing fs (length fs % 2 ^ 32)),
      record p { tables = ds ++ (map (refreshed_table w q p) ts ++ us) },
    )

get_flow_stats-answer :
    (w : Platform) (p : Pipeline) (table_id : ℕ) (q : FlowRequest) (m : Memory)
    (ds ts us : List Table)
    → IsPlentiful m
    → p.tables ≡ ds ++ (ts ++ us)
    → is_no_table p table_id ≡ false
    → table_range p table_id ≡ (length ts, length ds)
    → get_flow_stats w p table_id q m ≡ answer w (cut_cookies q) p ds ts us
unfolding get_flow_stats
get_flow_stats-answer w p table_id q m ds ts us l e n r =
    let start = listing [] 0 in
    let (k, x, _) =
      report_tables-IsReported w (cut_cookies q) p ds ts us start (later m) (λ i. l (suc i))
        (omega arith) in
    let run = λ (n : ℕ × ℕ) (l : List Table).
      report_tables n.0 n.1 w (cut_cookies q) (record p { tables = l }) start (later m) in
    let y = ap (λ n. run n p.tables) r ∙ ap (run (length ts, length ds)) e ∙ x in
    let fs = all_flows w (cut_cookies q) p ts in
    let z : (0 + length fs) % 2 ^ 32 ≡ length fs % 2 ^ 32 = omega arith in
    let u : Pipeline = record p {
      tables = ds ++ (map (refreshed_table w (cut_cookies q) p) ts ++ us);
    } in
    let with_count = λ (n : ℕ). listing fs n in
    rw (get_flow_stats, n, (l 0).1, y) (ap (λ n. some (some (with_count n), u)) z)

-- With memory, the answer of of1x_get_flow_stats for one table, with any number below 255, lists the
-- entries of that table that the request with its cookies cut to 32 bits asks for; the other tables
-- are as they were.
pub get_flow_stats-one :
    (w : Platform) (p : Pipeline) (q : FlowRequest) (m : Memory) (ds : List Table) (t : Table)
    (us : List Table)
    → IsPlentiful m
    → p.tables ≡ ds ++ t ∷ us
    → length ds < flow_table_all
    → get_flow_stats w p (length ds) q m ≡ answer w (cut_cookies q) p ds (t ∷ []) us
get_flow_stats-one w p q m ds t us l e h =
    let x = ap length e ∙ length-append ds (t ∷ us) in
    let n : (length ds == flow_table_all) ≡ false = ground arith in
    get_flow_stats-answer w p (length ds) q m ds (t ∷ []) us l e (ground arith) (rw n refl)

pairs : (a b c d : ℕ) → a ≡ c → b ≡ d → ◌≡◌ {A = ℕ × ℕ} (a, b) (c, d)
pairs a b c d q r = rw (q, r) refl

-- The seconds since the creation of an entry are whole seconds, modulo 32 bits, also where the
-- microseconds have to be borrowed from; the nanoseconds are always 0. The entry must not be created
-- later than the clock shows.
pub stats_flow_get_duration-since :
    (now : ℕ) (e : FlowEntry)
    → e.stats.initial_time ≤ now
    → stats_flow_get_duration now e ≡ ((now - e.stats.initial_time) / 1000000 % 2 ^ 32, 0)
unfolding stats_flow_get_duration
stats_flow_get_duration-since now e h =
    elim (Bool-cases (ltb (now % 1000000) (e.stats.initial_time % 1000000))) [
      | inl y ↦ rw (stats_flow_get_duration, y) (pairs _ _ _ _ (ground arith) (ground arith))
      | inr n ↦ rw (stats_flow_get_duration, n) (pairs _ _ _ _ (ground arith) (ground arith))
    ]
