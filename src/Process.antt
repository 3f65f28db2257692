-- ===== src/Process.antt =====
-- The processing of packets: of1x_action.c (the actions), of1x_instruction.c (the instructions) and
-- of1x_pipeline.c (the tables). `none` is the outcome of a NULL pointer that is read, of an assertion
-- that fails, and of an action on a packet that the platform has released. The memory of a released
-- packet is taken to stay as it was, for the reads that come after.
pub mod Header
pub mod Instructions
pub mod Tables
pub mod Balance
pub mod Delivery
pub mod Served
pub mod Liveness
pub mod Depth
mod Tests
use Header.{process_header}
use rofl_fork.Action.{
  Action, ActionGroup, is_action, update_packet_write_actions, clear_write_actions,
}
use rofl_fork.Action.Types.{ActionType}
use rofl_fork.Base.{
  ◌>>=◌, ℕ, zero, suc, ◌+◌, ◌-◌, ◌^◌, bit_and, bit_or, Bool, true, false, ◌||◌, not, List, [], ◌∷◌,
  Option, none, some, ltb, ◌==◌, if◌then◌else◌, find_first, get_elem?,
}
use rofl_fork.Group.Table.{Bucket, Group, GroupType}
use rofl_fork.Instruction.{
  Instruction, InstructionGroup, InstructionType, process_instructions_must_replicate,
}
use rofl_fork.Packet.{
  Packet, Platform, PacketEvent, PacketInReason, OutPort, replicated, dropped, sent, packet_in,
  bucket_update, group_update,
}
use rofl_fork.Pipeline.{Pipeline}
use rofl_fork.Ternary.{u32}

-- of1x_switch_t: the pipeline, and the addresses of the ports that are attached.
pub record Switch : Type 0 where
  pub pipeline : Pipeline
  pub logical_ports : List (Option ℕ)

-- OF1X_PORT_MAX and the ports that have a meaning of their own.
abbrev pub port_max : ℕ
port_max = 0xffffff00

abbrev pub port_in_port : ℕ
port_in_port = 0xfffffff8

abbrev pub port_normal : ℕ
port_normal = 0xfffffffa

abbrev pub port_flood : ℕ
port_flood = 0xfffffffb

abbrev pub port_all : ℕ
port_all = 0xfffffffc

abbrev pub port_controller : ℕ
port_controller = 0xfffffffd

-- LOGICAL_SWITCH_MAX_LOG_PORTS.
abbrev pub max_log_ports : ℕ
max_log_ports = 129

-- The port that is attached at a number.
unfoldable pub attached_port : Switch → ℕ → Option ℕ
attached_port sw n =
    if ltb n max_log_ports
    then elim (get_elem? sw.logical_ports n) [ none ↦ none | some p ↦ p ]
    else none

unfoldable pub is_output_port : ℕ → Bool
is_output_port n =
    ltb n port_max
    || n == port_in_port
    || n == port_all
    || n == port_flood
    || n == port_normal
    || n == port_controller

-- A packet while it is processed. `released` says that the platform has it.
pub record Run (D : Type 0) : Type 0 where
  pub pkt : Packet D
  pub released : Bool
  pub history : List (PacketEvent D)

module _ {D : Type 0} where
  -- The packet is dropped.
  abbrev pub drop_packet : Run D → Option (Run D)
  drop_packet r =
      if r.released
      then none
      else some (record r { released = true; history = dropped r.pkt ∷ r.history })

  abbrev pub note : PacketEvent D → Run D → Run D
  note e r = record r { history = e ∷ r.history }

  abbrev pub replica_run : Packet D → Run D → Run D
  replica_run q r = record { pkt = q; released = false; history = replicated q ∷ r.history }

  abbrev pub on_packet : (Packet D → Packet D) → Run D → Run D
  on_packet f r = record r { pkt = f r.pkt }

  -- What is done with the packet to send. The number of the port that it came in by is that of the
  -- packet that is processed.
  unfoldable pub send : Switch → ℕ → ℕ → ℕ → Packet D → Option (PacketEvent D)
  unfolding attached_port
  send sw table_id port_in n pkt = elim (attached_port sw n) [
    | some p ↦ some (if n == port_in then dropped pkt else sent pkt (OutPort.port p))
    | none ↦
        if n == port_flood
        then some (sent pkt OutPort.flood_meta_port)
        else if n == port_controller || n == port_normal
        then some (packet_in table_id pkt PacketInReason.action)
        else if n == port_all
        then some (sent pkt OutPort.all_meta_port)
        else if n == port_in_port
        then some (sent pkt OutPort.in_port_meta_port)
        else none
  ]

  -- Each of the actions in turn, until one has no outcome.
  unfoldable pub each_action :
      (Action → Run D → Option (Run D)) → List Action → Run D → Option (Run D)
  each_action step [] r = some r
  each_action step (a ∷ xs) r = do s ← step a r; each_action step xs s

module _ {D : Type 0} (platform : Platform D) (sw : Switch) (table_id : ℕ) where
  unfoldable pub process_output : ℕ → Bool → Run D → Option (Run D)
  unfolding is_output_port send
  process_output n replicate r =
      let port_in = r.pkt.matches.port_in in
      if not (is_output_port n)
      then some r
      else if r.released
      then none
      else if replicate
      then elim (platform.replicate r.history r.pkt) [
        | none ↦ some r
        | some q ↦ do e ← send sw table_id port_in n q; some (note e (note (replicated q) r))
      ]
      else do e ← send sw table_id port_in n r.pkt; some (record (note e r) { released = true })

  -- One bucket of a group of the type ALL, which works on a replica; `bytes` is the size of the packet.
  unfoldable pub process_bucket :
      (List Action → Bool → Run D → Option (Run D)) → ℕ → ℕ → ℕ → Bucket → Run D → Option (Run D)
  process_bucket apply group index bytes b r =
      let several = ltb 1 b.actions.num_of_output_actions in
      if b.actions.num_of_output_actions == 0 then some r else if r.released then none else do
        q ← platform.replicate r.history r.pkt
        s ← apply b.actions.actions several (replica_run q r)
        let t = note (bucket_update group index bytes) s
        u ← if several then drop_packet t else some t
        some (record r { history = u.history })

  unfoldable pub process_buckets :
      (List Action → Bool → Run D → Option (Run D))
      → ℕ
      → ℕ
      → ℕ
      → List Bucket
      → Run D
      → Option (Run D)
  unfolding process_bucket
  process_buckets apply group index bytes [] r = some r
  process_buckets apply group index bytes (b ∷ bs) r = do
    s ← process_bucket apply group index bytes b r
    process_buckets apply group (index + 1) bytes bs s

  -- The group at the pointer of the action.
  unfoldable pub group_at : Option ℕ → Option Group
  group_at none = none
  group_at (some addr) = find_first (λ g. g.addr == addr) sw.pipeline.groups.groups

  -- The buckets of a group, by its type; SELECT and FF are not supported.
  unfoldable pub process_group_buckets :
      (List Action → Bool → Run D → Option (Run D))
      → Group
      → Bool
      → GroupType
      → Run D
      → Option (Run D)
  unfolding process_buckets
  process_group_buckets apply g replicate GroupType.all r =
      process_buckets apply g.addr 0 r.pkt.matches.pkt_size_bytes g.bc_list.buckets r
  process_group_buckets apply g replicate GroupType.select r = none
  process_group_buckets apply g replicate GroupType.ff r = none
  process_group_buckets apply g replicate GroupType.indirect r = elim g.bc_list.buckets [
    | [] ↦ none
    | b ∷ bs ↦ do
      s ← apply b.actions.actions replicate r
      some (note (bucket_update g.addr 0 s.pkt.matches.pkt_size_bytes) s)
  ]

  unfoldable pub process_group_actions :
      (List Action → Bool → Run D → Option (Run D)) → Option ℕ → Bool → Run D → Option (Run D)
  unfolding group_at process_group_buckets
  process_group_actions apply addr replicate r = do
    g ← group_at addr
    s ← process_group_buckets apply g replicate g.type r
    some (note (group_update g.addr s.pkt.matches.pkt_size_bytes) s)

  -- The cases of the switch; `apply` runs the actions of a bucket.
  unfoldable pub process_case :
      (List Action → Bool → Run D → Option (Run D)) → Bool → Action → Run D → Option (Run D)
  unfolding process_output process_group_actions process_header
  process_case apply replicate a r =
      if is_action ActionType.no_action a
      then none
      else if is_action ActionType.experimenter a
      then some r
      else if is_action ActionType.output a
      then process_output (u32 a.field) replicate r
      else if is_action ActionType.group a
      then process_group_actions apply a.group replicate r
      else if r.released
      then none
      else some (on_packet (process_header platform sw.pipeline.of_ver a.type a.field) r)

  -- A group calls this again for the actions of its buckets, so it runs on fuel.
  unfoldable pub process_packet_action : ℕ → Bool → Action → Run D → Option (Run D)
  unfolding process_case each_action
  process_packet_action zero replicate a r = none
  process_packet_action (suc n) replicate a r =
      process_case (λ xs several s. each_action (process_packet_action n several) xs s) replicate a
        r

-- The buckets of a group have no group actions, so that no call is more than two deep.
abbrev pub depth : ℕ
depth = 2

module _ {D : Type 0} (platform : Platform D) (sw : Switch) (table_id : ℕ) where
  unfoldable pub process_apply_actions : List Action → Bool → Run D → Option (Run D)
  unfolding process_packet_action each_action
  process_apply_actions xs replicate r =
      each_action (process_packet_action platform sw table_id depth replicate) xs r

  -- The slots of the set that are filled, in their order.
  unfoldable pub process_slots : List Action → Bool → Run D → Option (Run D)
  unfolding process_packet_action
  process_slots [] replicate r = some r
  process_slots (a ∷ xs) replicate r =
      if is_action ActionType.no_action a then process_slots xs replicate r else do
        s ← process_packet_action platform sw table_id depth replicate a r
        process_slots xs replicate s

  unfoldable pub process_write_actions : Bool → Run D → Option (Run D)
  unfolding process_slots
  process_write_actions replicate r = process_slots r.pkt.write_actions.write_actions replicate r
