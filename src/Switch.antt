-- ===== src/Switch.antt =====
-- openflow1x/of1x_switch.c and of_switch.c: the ports of a logical switch, and the change of its
-- version. Ports are shared with the physical switch, so they are in a store, by their addresses.
pub mod Ports
pub mod Attach
pub mod Return
pub mod Retire
pub mod Reset
pub mod Tests
use rofl_fork.Base.{
  ◌>>=◌, ℕ, ◌+◌, ◌-◌, ◌%◌, ◌^◌, Bool, true, false, ◌||◌, not, List, [], ◌∷◌, Option, none, some,
  leb, ◌==◌, if◌then◌else◌, is_some, get_elem?, set, RoflResult, success, failure,
}
use rofl_fork.Match.{of_version_10, of_version_12, of_version_13}
use rofl_fork.Pipeline.{Pipeline}
use rofl_fork.Pipeline.Manage.{purge_pipeline_entries, set_pipeline_tables_defaults}

-- logical_switch_port_attachment_state_t; state_free is 0.
pub data AttachmentState : Type 0 where
  state_free state_attached state_detached : AttachmentState

-- logical_switch_port_t.
pub record LogicalPort : Type 0 where
  pub attachment_state : AttachmentState
  pub port : Option ℕ

-- The fields of switch_port_t that attachment changes.
pub record Port : Type 0 where
  pub of_port_num : ℕ
  pub attached_sw : Option ℕ

-- The common part of of1x_switch_t, and the store of the ports.
pub record Attachments : Type 0 where
  pub addr : ℕ
  pub of_ver : ℕ
  pub num_of_ports : ℕ
  pub logical_ports : List LogicalPort
  pub store : ℕ → Port

-- LOGICAL_SWITCH_MAX_LOG_PORTS.
abbrev pub max_log_ports : ℕ
max_log_ports = 129

abbrev pub is_free : LogicalPort → Bool
is_free l = elim l.attachment_state [
  | state_free ↦ true
  | state_attached ↦ false
  | state_detached ↦ false
]

abbrev pub is_attached : LogicalPort → Bool
is_attached l = elim l.attachment_state [
  | state_free ↦ false
  | state_attached ↦ true
  | state_detached ↦ false
]

abbrev pub holds : ℕ → LogicalPort → Bool
holds a l = elim l.port [ none ↦ false | some b ↦ b == a ]

abbrev pub put_port : ℕ → Port → (ℕ → Port) → ℕ → Port
put_port a p store b = if b == a then p else store b

-- The port goes to the slot.
unfoldable pub occupy : Attachments → ℕ → ℕ → Attachments
occupy sw n a = record sw {
  logical_ports =
      set sw.logical_ports n (record { attachment_state = state_attached; port = some a });
  num_of_ports = (sw.num_of_ports + 1) % 2 ^ 32;
  store = put_port a (record { of_port_num = n; attached_sw = some sw.addr }) sw.store;
}

-- The slot gives up the port.
unfoldable pub vacate : Attachments → ℕ → ℕ → Attachments
vacate sw n a = record sw {
  logical_ports =
      set sw.logical_ports n (record { attachment_state = state_detached; port = none });
  num_of_ports = (sw.num_of_ports + (2 ^ 32 - 1)) % 2 ^ 32;
  store = put_port a (record { of_port_num = 0; attached_sw = none }) sw.store;
}

-- `none` is a slot read out of bounds.
unfoldable pub attach_port_to_switch_at_port_num :
    Attachments → ℕ → Option ℕ → Option (RoflResult × Attachments)
unfolding occupy
attach_port_to_switch_at_port_num sw n none = some (failure, sw)
attach_port_to_switch_at_port_num sw n (some a) =
    if n == 0 || leb max_log_ports n
    then some (failure, sw)
    else elim (get_elem? sw.logical_ports n) [
      | none ↦ none
      | some l ↦ some (if not (is_free l) then (failure, sw) else (success, occupy sw n a))
    ]

-- The first slot that meets the test, with its number; the list starts at the given one.
unfoldable pub first_slot : (LogicalPort → Bool) → ℕ → List LogicalPort → Option ℕ
first_slot p i [] = none
first_slot p i (l ∷ ls) = let rest = first_slot p (i + 1) ls in if p l then some i else rest

-- The loop starts at slot 1.
abbrev pub free_slot : List LogicalPort → Option ℕ
unfolding first_slot
free_slot [] = none
free_slot (l ∷ ls) = first_slot is_free 1 ls

-- The number of the port is that of the result.
unfoldable pub attach_port_to_switch :
    Attachments → Option ℕ → (RoflResult × Option ℕ) × Attachments
unfolding occupy
attach_port_to_switch sw none = ((failure, none), sw)
attach_port_to_switch sw (some a) =
    if is_some (sw.store a).attached_sw
    then ((failure, none), sw)
    else elim (free_slot sw.logical_ports) [
      | none ↦ ((failure, none), sw)
      | some i ↦ ((success, some i), occupy sw i a)
    ]

-- A number behind the last slot is read out of bounds, and so is a port that is NULL.
unfoldable pub detach_port_from_switch_by_port_num :
    Attachments → ℕ → Option (RoflResult × Attachments)
unfolding vacate
detach_port_from_switch_by_port_num sw n = if n == 0 then some (failure, sw) else do
  l ← get_elem? sw.logical_ports n
  if not (is_attached l) then some (failure, sw) else do a ← l.port; some (success, vacate sw n a)

unfoldable pub detach_port_from_switch : Attachments → Option ℕ → RoflResult × Attachments
unfolding vacate first_slot
detach_port_from_switch sw none = (failure, sw)
detach_port_from_switch sw (some a) = elim (first_slot (holds a) 0 sw.logical_ports) [
  | none ↦ (failure, sw)
  | some i ↦ (success, vacate sw i a)
]

-- The port of a slot is told that it is not attached; its number stays.
abbrev pub release_port : LogicalPort → (ℕ → Port) → ℕ → Port
release_port l store = elim l.port [
  | none ↦ store
  | some a ↦ put_port a (record (store a) { attached_sw = none }) store
]

unfoldable pub release_ports : List LogicalPort → (ℕ → Port) → ℕ → Port
release_ports [] store = store
release_ports (l ∷ ls) store = release_ports ls (release_port l store)

unfoldable pub all_detached : List LogicalPort → List LogicalPort
all_detached [] = []
all_detached (l ∷ ls) = record { attachment_state = state_detached; port = none } ∷ all_detached ls

unfoldable pub detach_all_ports_from_switch : Attachments → RoflResult × Attachments
unfolding release_ports all_detached
detach_all_ports_from_switch sw = (
  success,
  record sw {
    logical_ports = all_detached sw.logical_ports;
    store = release_ports sw.logical_ports sw.store;
  },
)

-- The memory of the request of the purge is that of the purge.
unfoldable pub reconfigure_switch :
    Option ℕ → Bool → ℕ → Pipeline → ℕ → Option (RoflResult × Pipeline)
unfolding purge_pipeline_entries set_pipeline_tables_defaults
reconfigure_switch addr allocated now p version =
    if p.of_ver == version
    then some (success, p)
    else if version == 2
    then some (failure, p)
    else do
      r ← purge_pipeline_entries addr allocated now p
      elim r.0 [
        | failure ↦ some (failure, r.1)
        | success ↦
            let s = set_pipeline_tables_defaults r.1 version in
            elim s.0 [
              | failure ↦ some (failure, s.1)
              | success ↦ some (success, record s.1 { of_ver = version })
            ]
      ]

-- The versions that of_switch.c passes on.
abbrev pub is_supported : ℕ → Bool
is_supported version =
    version == of_version_10 || version == of_version_12 || version == of_version_13

unfoldable pub of_reconfigure_switch :
    Option ℕ → Bool → ℕ → Pipeline → ℕ → Option (RoflResult × Pipeline)
unfolding reconfigure_switch
of_reconfigure_switch addr allocated now p version =
    if is_supported version
    then reconfigure_switch addr allocated now p version
    else some (failure, p)

unfoldable pub of_attach_port_to_switch_at_port_num :
    Attachments → ℕ → Option ℕ → Option (RoflResult × Attachments)
unfolding attach_port_to_switch_at_port_num
of_attach_port_to_switch_at_port_num sw n port =
    if is_supported sw.of_ver
    then attach_port_to_switch_at_port_num sw n port
    else some (failure, sw)

unfoldable pub of_attach_port_to_switch :
    Attachments → Option ℕ → (RoflResult × Option ℕ) × Attachments
unfolding attach_port_to_switch
of_attach_port_to_switch sw port =
    if is_supported sw.of_ver then attach_port_to_switch sw port else ((failure, none), sw)

unfoldable pub of_detach_port_from_switch_by_port_num :
    Attachments → ℕ → Option (RoflResult × Attachments)
unfolding detach_port_from_switch_by_port_num
of_detach_port_from_switch_by_port_num sw n =
    if is_supported sw.of_ver then detach_port_from_switch_by_port_num sw n else some (failure, sw)

unfoldable pub of_detach_port_from_switch : Attachments → Option ℕ → RoflResult × Attachments
unfolding detach_port_from_switch
of_detach_port_from_switch sw port =
    if is_supported sw.of_ver then detach_port_from_switch sw port else (failure, sw)

unfoldable pub of_detach_all_ports_from_switch : Attachments → RoflResult × Attachments
unfolding detach_all_ports_from_switch
of_detach_all_ports_from_switch sw =
    if is_supported sw.of_ver then detach_all_ports_from_switch sw else (failure, sw)
