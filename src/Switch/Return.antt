-- ===== src/Switch/Return.antt =====
-- A port that is attached and then detached.
use rofl_fork.Base.{
  ℕ, zero, suc, ◌≡◌, ◌≢◌, refl, true, false, inl, inr, List, [], ◌∷◌, none, some, get_elem?, set,
  arith, ◌==◌, Option-cases, success,
}
use rofl_fork.Switch.{
  state_attached, LogicalPort, Attachments, is_free, occupy, vacate, free_slot,
  attach_port_to_switch, detach_port_from_switch_by_port_num,
}
use rofl_fork.Switch.Attach.{free_slot-get}
use rofl_fork.Switch.Ports.{ArePorts, attached_count-length, first_slot-get}

get_elem?-set :
    (ls : List LogicalPort) (n : ℕ) (l v : LogicalPort)
    → get_elem? ls n ≡ some l
    → get_elem? (set ls n v) n ≡ some v
get_elem?-set [] n l v q = ground arith
get_elem?-set (x ∷ ls) zero l v q = refl
get_elem?-set (x ∷ ls) (suc n) l v q = get_elem?-set ls n l v q

free_slot-positive : (ls : List LogicalPort) (n : ℕ) → free_slot ls ≡ some n → (n == 0) ≡ false
unfolding free_slot
free_slot-positive [] n q = ground arith
free_slot-positive (x ∷ ls) n q =
    let (k, _, e, _, _) = first_slot-get is_free 1 n ls q in ground (arith, e)

-- The detachment of the slot that a port has just got.
abbrev pub IsReturned : Attachments → ℕ → ℕ → Attachments → Type 0
IsReturned sw n a w =
    (v : Attachments) × (detach_port_from_switch_by_port_num w n ≡ some (success, v))
    × ((v.store a).attached_sw ≡ none)
    × ((v.store a).of_port_num ≡ 0)
    × (v.num_of_ports ≡ sw.num_of_ports)

vacate-occupy :
    (sw : Attachments) (n a : ℕ) (l : LogicalPort)
    → ArePorts sw
    → get_elem? sw.logical_ports n ≡ some l
    → (n == 0) ≡ false
    → IsReturned sw n a (occupy sw n a)
unfolding detach_port_from_switch_by_port_num occupy vacate
vacate-occupy sw n a l i q z =
    let v : LogicalPort = record { attachment_state = state_attached; port = some a } in
    let g = get_elem?-set sw.logical_ports n l v q in
    let y : (a == a) ≡ true = ground arith in
    let b = attached_count-length sw.logical_ports in
    let d = i.count in
    let e = i.size in
    (vacate (occupy sw n a) n a, rw (z, g) refl, rw y refl, rw y refl, omega (arith, b, d, e))

-- The attachment of a port that is not attached to any switch gives it to a slot, if there is a free
-- one, on a switch whose slots are in order; its detachment at the number that it got succeeds, the
-- port is attached nowhere after it, and the count of ports is what it was.
pub attach-returns :
    (sw : Attachments) (a : ℕ)
    → ArePorts sw
    → (sw.store a).attached_sw ≡ none
    → free_slot sw.logical_ports ≢ none
    → (n : ℕ) × (w : Attachments) × (attach_port_to_switch sw (some a) ≡ ((success, some n), w))
      × IsReturned sw n a w
unfolding attach_port_to_switch free_slot
attach-returns sw a i m f = elim (Option-cases (free_slot sw.logical_ports)) [
  | inl q ↦ absurd (f q)
  | inr (n, q) ↦
      let (l, g, _) = free_slot-get sw.logical_ports n q in
      let z = free_slot-positive sw.logical_ports n q in
      (n, occupy sw n a, rw (m, q) refl, vacate-occupy sw n a l i g z)
]
