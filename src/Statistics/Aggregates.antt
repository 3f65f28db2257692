-- ===== src/Statistics/Aggregates.antt =====
-- of1x_get_flow_aggregate_stats: the totals over the tables.
use rofl_fork.Base.{
  ℕ, zero, suc, ◌+◌, ◌≡◌, ap, sym, ◌∙◌, refl, Bool, true, false, List, [], ◌∷◌, ◌++◌, Option, none,
  some, length, length-append, keep, get_elem?, get_middle, append_assoc, if◌then◌else◌, arith,
}
use rofl_fork.FlowEntry.{FlowEntry}
use rofl_fork.Loop.{Table}
use rofl_fork.Loop.Aggregate.{total, IsMessage, Adds, get_flow_aggregate_stats-Adds}
use rofl_fork.Loop.Lookup.{Aggregate, get_flow_aggregate_stats_loop}
use rofl_fork.Pipeline.{Pipeline}
use rofl_fork.Statistics.Messages.{
  FlowRequest, is_asked, flow_table_all, cut_cookies, is_no_table, table_range,
}

-- The tables from a number on, so many of them; `none` is a table out of range.
unfoldable pub aggregate_tables : ℕ → ℕ → FlowRequest → Pipeline → Aggregate → Option Aggregate
aggregate_tables zero i q p msg = some msg
aggregate_tables (suc k) i q p msg = elim (get_elem? p.tables i) [
  | none ↦ none
  | some t ↦ aggregate_tables k (i + 1) q p (
      get_flow_aggregate_stats_loop p.of_ver t q.cookie q.cookie_mask q.out_port q.out_group
        q.matches msg)
]

abbrev pub no_flows : Aggregate
no_flows = record { packet_count = 0; byte_count = 0; flow_count = 0 }

-- The inner `none` is NULL. Whether there is memory for the message is an argument.
unfoldable pub get_flow_aggregate_stats :
    Bool → Pipeline → ℕ → FlowRequest → Option (Option Aggregate)
unfolding aggregate_tables
get_flow_aggregate_stats allocated p table_id q =
    if is_no_table p table_id then some none else elim allocated [
      | false ↦ some none
      | true ↦
          let n = table_range p table_id in
          elim (aggregate_tables n.0 n.1 (cut_cookies q) p no_flows) [
            | none ↦ none
            | some msg ↦ some (some msg)
          ]
    ]

total-append :
    (f : FlowEntry → ℕ) (xs ys : List FlowEntry) → total f (xs ++ ys) ≡ total f xs + total f ys
total-append f [] ys = omega arith
total-append f (x ∷ xs) ys = omega (arith, total-append f xs ys)

Adds-trans :
    (m n r : Aggregate) (xs ys : List FlowEntry) → Adds m xs n → Adds n ys r → Adds m (xs ++ ys) r
Adds-trans m n r xs ys (a, b, c) (d, e, f) =
    let x = total-append (λ e. e.stats.packet_count) xs ys in
    let y = total-append (λ e. e.stats.byte_count) xs ys in
    let z = length-append xs ys in (omega arith, omega arith, omega arith)

Adds-IsMessage : (m r : Aggregate) (xs : List FlowEntry) → Adds m xs r → IsMessage r
Adds-IsMessage m r xs (a, b, c) = (omega arith, omega arith, omega arith)

-- The entries of the tables that the request asks for.
abbrev pub all_asked : ℕ → FlowRequest → List Table → List FlowEntry
all_asked version q [] = []
all_asked version q (t ∷ ts) = keep (is_asked version q) t.entries ++ all_asked version q ts

aggregate_tables-Adds :
    (q : FlowRequest) (p : Pipeline) (ds ts : List Table) (msg : Aggregate)
    → p.tables ≡ ds ++ ts
    → IsMessage msg
    → (r : Aggregate) × (aggregate_tables (length ts) (length ds) q p msg ≡ some r)
      × Adds msg (all_asked p.of_ver q ts) r
unfolding aggregate_tables
aggregate_tables-Adds q p ds [] msg e (a, b, c) =
    (msg, refl, (omega arith, omega arith, omega arith))
aggregate_tables-Adds q p ds (t ∷ ts) msg e i =
    let n =
      get_flow_aggregate_stats_loop p.of_ver t q.cookie q.cookie_mask q.out_port q.out_group
        q.matches msg in
    let step =
      get_flow_aggregate_stats-Adds p.of_ver t q.cookie q.cookie_mask q.out_port q.out_group
        q.matches msg i in
    let g = ap (λ l. get_elem? l (length ds)) e ∙ get_middle ds t ts in
    let (r, x, f) =
      aggregate_tables-Adds q p (ds ++ t ∷ []) ts n (e ∙ sym (append_assoc ds (t ∷ []) ts))
        (Adds-IsMessage msg n _ step) in
    let l = length-append ds (t ∷ []) in
    (r, rw (aggregate_tables, g) (rw l at x), Adds-trans msg n r _ _ step f)

-- With memory for the message, the aggregate statistics of all tables are the packets, the bytes and
-- the number of the entries of all tables that the request with its cookies cut to 32 bits asks for,
-- modulo the widths of the counters.
pub get_flow_aggregate_stats-all :
    (p : Pipeline) (q : FlowRequest)
    → (r : Aggregate) × (get_flow_aggregate_stats true p flow_table_all q ≡ some (some r))
      × Adds no_flows (all_asked p.of_ver (cut_cookies q) p.tables) r
unfolding get_flow_aggregate_stats
get_flow_aggregate_stats-all p q =
    let (r, x, f) =
      aggregate_tables-Adds (cut_cookies q) p [] p.tables no_flows refl
        (omega arith, omega arith, omega arith) in
    let n : is_no_table p flow_table_all ≡ false = ground arith in
    (r, rw (get_flow_aggregate_stats, n, x) refl, f)
