-- ===== src/Action.antt =====
-- of1x_action.c and of1x_action.h: packet actions, the lists of them that a flow entry applies, and
-- the sets of them that it writes. A list is held by one pointer, so a copy of it stands for it. The
-- pointer to a group is the address of the group.
pub mod Types
pub mod Validate
pub mod Init
pub mod Width
use rofl_fork.Base.{
  ℕ, zero, suc, ◌+◌, ◌%◌, ◌^◌, Bool, true, false, ◌&&◌, ◌||◌, not, List, [], ◌∷◌, ◌++◌, Option,
  none, some, ◌==◌, if◌then◌else◌, any, length, get_elem?, set,
}
use rofl_fork.Ternary.{Wrap, u64}
use rofl_fork.Match.{VerReq, narrow, min_version, max_version}
use Types.{ActionType, action_code, at_number}

pub record Action : Type 0 where
  pub type : ActionType
  pub field : Wrap
  pub group : Option ℕ
  pub ver_req : VerReq

-- A slot of the set that memset has cleared.
abbrev pub no_action : Action
no_action = record {
  type = ActionType.no_action;
  field = record { hi = 0; lo = 0 };
  group = none;
  ver_req = record { min_ver = 0; max_ver = 0 };
}

abbrev pub is_action : ActionType → Action → Bool
is_action t a = action_code a.type == action_code t

pub record ActionGroup : Type 0 where
  pub actions : List Action
  pub num_of_actions : ℕ
  pub num_of_output_actions : ℕ
  pub ver_req : VerReq

-- The number of outputs of a new list. The loop counts the actions but the last, at which it breaks.
unfoldable pub count_outputs : List Action → ℕ
count_outputs [] = 0
count_outputs (a ∷ xs) =
    let rest = count_outputs xs in
    if is_action ActionType.output a then (rest + 1) % 2 ^ 32 else rest

unfoldable pub count_steps : List Action → ℕ
count_steps [] = 0
count_steps (a ∷ []) = 0
count_steps (a ∷ b ∷ xs) = (count_steps (b ∷ xs) + 1) % 2 ^ 32

unfoldable pub init_action_group : List Action → ActionGroup
unfolding count_outputs count_steps
init_action_group actions = record {
  actions = actions;
  num_of_actions = count_steps actions;
  num_of_output_actions = count_outputs actions;
  ver_req = record { min_ver = min_version; max_ver = max_version };
}

unfoldable pub push_packet_action_to_group : ActionGroup → Action → ActionGroup
push_packet_action_to_group g a = record g {
  actions = g.actions ++ a ∷ [];
  num_of_actions = (g.num_of_actions + 1) % 2 ^ 32;
  ver_req = narrow g.ver_req a.ver_req;
}

-- One slot for each kind of action, at its number.
pub record WriteActions : Type 0 where
  pub write_actions : List Action
  pub num_of_actions : ℕ
  pub num_of_output_actions : ℕ
  pub ver_req : VerReq

abbrev pub repeat {ℓ} : {A : Type ℓ} → ℕ → A → List A
repeat zero a = []
repeat (suc n) a = a ∷ repeat n a

-- __of1x_init_packet_write_actions and __of1x_clear_write_actions: memset of the set to zero.
unfoldable pub clear_write_actions : WriteActions
clear_write_actions = record {
  write_actions = repeat at_number no_action;
  num_of_actions = 0;
  num_of_output_actions = 0;
  ver_req = record { min_ver = 0; max_ver = 0 };
}

unfoldable pub init_write_actions : WriteActions
unfolding clear_write_actions
init_write_actions = record clear_write_actions {
  ver_req = record { min_ver = min_version; max_ver = max_version };
}

unfoldable pub set_packet_action_on_write_actions : WriteActions → Action → WriteActions
set_packet_action_on_write_actions w a = record w {
  write_actions = set w.write_actions (action_code a.type) a;
  ver_req = narrow w.ver_req a.ver_req;
}

-- The slots of the packet's set that the entry's set fills are overwritten.
unfoldable pub update_slots : List Action → List Action → List Action
update_slots [] es = []
update_slots (p ∷ ps) [] = p ∷ ps
update_slots (p ∷ ps) (e ∷ es) =
    let rest = update_slots ps es in if is_action ActionType.no_action e then p ∷ rest else e ∷ rest

unfoldable pub update_packet_write_actions : WriteActions → Option WriteActions → WriteActions
unfolding update_slots
update_packet_write_actions p none = p
update_packet_write_actions p (some e) = record p {
  write_actions = update_slots p.write_actions e.write_actions;
}

-- The slot at an index; the code never reads another.
abbrev pub action_at : List Action → ℕ → Action
action_at [] i = no_action
action_at (a ∷ xs) zero = a
action_at (a ∷ xs) (suc i) = action_at xs i

unfoldable pub write_actions_has : Option WriteActions → ActionType → ℕ → Bool
write_actions_has none type value = false
write_actions_has (some w) type value =
    let action = action_at w.write_actions (action_code type) in
    not (is_action ActionType.no_action action) && not (value == 0) && u64 action.field == value

-- The action has the kind and the value, and the value is not 0.
abbrev pub action_has : ActionType → ℕ → Action → Bool
action_has type value a = is_action type a && not (value == 0) && u64 a.field == value

unfoldable pub apply_actions_has : Option ActionGroup → ActionType → ℕ → Bool
apply_actions_has none type value = false
apply_actions_has (some g) type value = any (action_has type value) g.actions
