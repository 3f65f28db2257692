-- ===== src/Pipeline/Purge.antt =====
-- What is left of a pipeline that is purged.
use rofl_fork.Base.{
  get_middle, set_middle, Gives, Gives-some, ℕ, ◌+◌, ◌≡◌, refl, true, false, List, [], ◌∷◌, ◌++◌,
  none, some, All, All-append, length-append, ap, ◌∙◌, length, keep, RoflResult, success, arith,
  append_assoc,
}
use rofl_fork.FlowEntry.{
  FlowEntry, init_flow_entry, delete, port_any, flow_entry_check_contained, each_pair,
}
use rofl_fork.FlowEntry.Validate.{validate_flow_entry}
use rofl_fork.Group.Table.{GroupTable, group_any}
use rofl_fork.Instruction.{init_instruction_group}
use rofl_fork.Instruction.Validate.{validate_instructions, validate_slots, validate_slot}
use rofl_fork.Loop.{Table, not_strict, remove_flow_entry_loop}
use rofl_fork.Loop.Invariant.{IsTable}
use rofl_fork.Loop.Remove.{remove_not_strict-Leaves, stays}
use rofl_fork.Match.{init_match_group}
use rofl_fork.Pipeline.{Pipeline, remove_flow_entry_table}
use rofl_fork.Pipeline.Delete.{group_delete}
use rofl_fork.Pipeline.Manage.{purge_tables, purge_pipeline_entries}

-- The request without matches and instructions is valid for every version.
validate-request :
    (version : ℕ) (gt : GroupTable) (addr now : ℕ)
    → validate_flow_entry version (some gt) (init_flow_entry addr now false)
      ≡ some (success, init_flow_entry addr now false)
unfolding validate_flow_entry init_flow_entry validate_instructions validate_slots validate_slot
    init_instruction_group init_match_group
validate-request version gt addr now = ground arith

-- It contains every entry.
keep-stays :
    (addr now : ℕ) (es : List FlowEntry)
    → keep (stays (init_flow_entry addr now false) port_any group_any) es ≡ []
unfolding keep flow_entry_check_contained init_flow_entry init_match_group each_pair
keep-stays addr now [] = refl
keep-stays addr now (e ∷ es) = ground (arith, keep-stays addr now es)

-- A table in order without entries.
abbrev pub IsEmpty : Table → Type 0
IsEmpty t = IsTable t × (t.entries ≡ [])

-- The table between the others has been emptied.
abbrev IsStep : Pipeline → List Table → List Table → RoflResult × Pipeline → Type 0
IsStep b ds ts r = (u : Table) × IsEmpty u × (r ≡ (success, record b { tables = ds ++ u ∷ ts }))

-- One step of the loop, where the tables before are done.
remove_middle :
    (b : Pipeline) (addr now : ℕ) (ds : List Table) (t : Table) (ts : List Table)
    → IsTable t
    → Gives (IsStep b ds ts) (
        remove_flow_entry_table
          (record b { tables = ds ++ t ∷ ts })
          (length ds)
          (init_flow_entry addr now false)
          not_strict
          port_any
          group_any)
unfolding remove_flow_entry_table
remove_middle b addr now ds t ts i =
    let e = init_flow_entry addr now false in
    let l = remove_not_strict-Leaves t e port_any group_any delete i in
    let u = (remove_flow_entry_loop t (some e) none not_strict port_any group_any delete).1 in
    rw (get_middle ds t ts, validate-request b.of_ver b.groups addr now)
      (u, (l.1, l.2 ∙ keep-stays addr now t.entries), rw (l.0, set_middle ds t ts u))

all_done : (ds : List Table) → All IsEmpty ds → All IsEmpty (ds ++ [])
all_done [] f = tt
all_done (d ∷ ds) f = (f.0, all_done ds f.1)

-- The tables that are left to do are all emptied.
purge_tables-IsEmpty :
    (b : Pipeline) (addr now n : ℕ) (ds ts : List Table)
    → All IsEmpty ds
    → All IsTable ts
    → length ds + length ts ≡ n
    → Gives
        (λ r.
          (r.0 ≡ success)
          × All IsEmpty r.1.tables
          × (length r.1.tables ≡ n)
          × (r.1.groups ≡ b.groups)
          × (r.1.of_ver ≡ b.of_ver))
        (purge_tables
          (length ts)
          (length ds)
          (init_flow_entry addr now false)
          (record b { tables = ds ++ ts }))
unfolding purge_tables
purge_tables-IsEmpty b addr now n ds [] f i l =
    (refl, all_done ds f, length-append ds [] ∙ l, refl, refl)
purge_tables-IsEmpty b addr now n ds (t ∷ ts) f i l =
    let (r, e, h) = Gives-some (IsStep b ds ts) _ (remove_middle b addr now ds t ts i.0) in
    let (u, v, q) = h in
    let step = e ∙ ap some q in
    let w : length (ds ++ u ∷ []) ≡ length ds + 1 = length-append ds (u ∷ []) in
    let a : (ds ++ u ∷ []) ++ ts ≡ ds ++ u ∷ ts = append_assoc ds (u ∷ []) ts in
    let k =
      purge_tables-IsEmpty b addr now n (ds ++ u ∷ []) ts (All-append IsEmpty ds (u ∷ []) f (v, tt))
        i.1 (rw w (omega (arith, l))) in
    rw step (rw (w, a) at k)

-- A pipeline whose tables are in order is purged with success, if there is memory for the request: all
-- tables are empty afterwards, and there are as many. The groups are what they were.
pub purge_pipeline_entries-IsEmpty :
    (addr now : ℕ) (p : Pipeline)
    → All IsTable p.tables
    → (q : Pipeline) × (purge_pipeline_entries (some addr) true now p ≡ some (success, q))
      × All IsEmpty q.tables
      × (length q.tables ≡ length p.tables)
      × (q.groups ≡ p.groups)
unfolding purge_pipeline_entries group_delete
purge_pipeline_entries-IsEmpty addr now p i =
    let (r, e, h) =
      Gives-some
        (λ r.
          (r.0 ≡ success)
          × All IsEmpty r.1.tables
          × (length r.1.tables ≡ length p.tables)
          × (r.1.groups ≡ p.groups)
          × (r.1.of_ver ≡ p.of_ver))
        _ (purge_tables-IsEmpty p addr now (length p.tables) [] p.tables tt i (omega arith)) in
    let step = e ∙ ap (λ (x : RoflResult). some (x, r.1)) h.0 in (r.1, rw step refl, h.1, h.2, h.3)
