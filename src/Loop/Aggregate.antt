-- ===== src/Loop/Aggregate.antt =====
-- What the aggregate statistics of of1x_loop_match.c add up to.
use rofl_fork.Base.{
  ℕ, ◌+◌, ◌%◌, ◌^◌, ◌<◌, ◌≡◌, ap, Bool, true, false, List, [], ◌∷◌, keep, length, Bool-cases, arith,
  inl, inr, if◌then◌else◌,
}
use rofl_fork.FlowEntry.{FlowEntry}
use rofl_fork.Loop.{Table}
use rofl_fork.Loop.Lookup.{
  Aggregate, aggregate, count_entry, selected, flow_stats_entry, get_flow_aggregate_stats_loop,
}
use rofl_fork.Match.{MatchGroup}

abbrev pub total : (FlowEntry → ℕ) → List FlowEntry → ℕ
total f [] = 0
total f (e ∷ es) = f e + total f es

-- The counters fit their widths.
abbrev pub IsMessage : Aggregate → Type 0
IsMessage m = (m.packet_count < 2 ^ 64) × (m.byte_count < 2 ^ 64) × (m.flow_count < 2 ^ 32)

-- The message with the totals of some entries added.
abbrev pub Adds : Aggregate → List FlowEntry → Aggregate → Type 0
Adds m es r =
    (r.packet_count ≡ (m.packet_count + total (λ e. e.stats.packet_count) es) % 2 ^ 64)
    × (r.byte_count ≡ (m.byte_count + total (λ e. e.stats.byte_count) es) % 2 ^ 64)
    × (r.flow_count ≡ (m.flow_count + length es) % 2 ^ 32)

module _ (p : FlowEntry → Bool) (e : FlowEntry) (es : List FlowEntry) (m : Aggregate) where
  aggregate_yes : p e ≡ true → aggregate p (e ∷ es) m ≡ aggregate p es (count_entry e m)
  unfolding aggregate
  aggregate_yes y = ap (λ b. aggregate p es (if b then count_entry e m else m)) y

  aggregate_no : p e ≡ false → aggregate p (e ∷ es) m ≡ aggregate p es m
  unfolding aggregate
  aggregate_no n = ap (λ b. aggregate p es (if b then count_entry e m else m)) n

Adds-step :
    (e : FlowEntry) (es : List FlowEntry) (m r : Aggregate)
    → Adds (count_entry e m) es r
    → Adds m (e ∷ es) r
Adds-step e es m r (f, g, h) = (omega arith, omega arith, omega arith)

aggregate-Adds :
    (p : FlowEntry → Bool) (es : List FlowEntry) (m : Aggregate)
    → IsMessage m
    → Adds m (keep p es) (aggregate p es m)
unfolding aggregate keep
aggregate-Adds p [] m (a, b, c) = (omega arith, omega arith, omega arith)
aggregate-Adds p (e ∷ es) m i = elim (Bool-cases (p e)) [
  | inl y ↦
      let h = aggregate-Adds p es (count_entry e m) (omega arith, omega arith, omega arith) in
      rw (aggregate_yes p e es m y) (rw y (Adds-step e (keep p es) m _ h))
  | inr n ↦ rw (aggregate_no p e es m n) (rw n (aggregate-Adds p es m i))
]

-- To a message whose counters fit their widths, the aggregate of a table adds the packets, the
-- bytes and the number of the entries that the request selects, modulo the widths of the counters.
pub get_flow_aggregate_stats-Adds :
    (version : ℕ) (t : Table) (cookie cookie_mask out_port out_group : ℕ) (matches : MatchGroup)
    (m : Aggregate)
    → IsMessage m
    → Adds m
        (keep
          (selected version (flow_stats_entry cookie cookie_mask matches) out_port out_group)
          t.entries)
        (get_flow_aggregate_stats_loop version t cookie cookie_mask out_port out_group matches m)
unfolding get_flow_aggregate_stats_loop
get_flow_aggregate_stats-Adds version t cookie cookie_mask out_port out_group matches m i =
    aggregate-Adds _ t.entries m i
