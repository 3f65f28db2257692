-- ===== src/Switch/Attach.antt =====
-- The attachment and detachment of ports, and what they keep.
use rofl_fork.Base.{
  ℕ, zero, suc, ◌≡◌, ◌≢◌, ◌<◌, ap, sym, ◌∙◌, refl, true, false, Bool-cases, inl, inr, List, [], ◌∷◌,
  Option, none, some, get_elem?, length, is_some, ==_iff, arith, ◌==◌, leb, ◌||◌, Option-cases,
  RoflResult, success, failure,
}
use rofl_fork.Switch.{
  of_attach_port_to_switch_at_port_num, of_attach_port_to_switch,
  of_detach_port_from_switch_by_port_num, of_detach_port_from_switch, is_supported, LogicalPort,
  Attachments, is_attached, is_free, holds, occupy, vacate, max_log_ports, first_slot, free_slot,
  attach_port_to_switch_at_port_num, attach_port_to_switch, detach_port_from_switch_by_port_num,
  detach_port_from_switch,
}
use rofl_fork.Switch.Ports.{ArePorts, get-IsSlot, occupy-ArePorts, vacate-ArePorts, first_slot-get}

is_free-is_attached : (l : LogicalPort) → is_free l ≡ true → is_attached l ≡ false
is_free-is_attached l f = ground arith

holds-port : (a : ℕ) (l : LogicalPort) → holds a l ≡ true → l.port ≡ some a
holds-port a l y = elim (Option-cases l.port) [
  | inl n ↦ let z : false ≡ true = rw n at y in ground arith
  | inr (b, q) ↦ let z : (b == a) ≡ true = rw q at y in q ∙ ap some ((==_iff b a).0 z)
]

get_elem?-below : (ls : List LogicalPort) (n : ℕ) → n < length ls → get_elem? ls n ≢ none
get_elem?-below [] n h = ground arith
get_elem?-below (x ∷ ls) zero h = λ z. ground arith
get_elem?-below (x ∷ ls) (suc n) h = get_elem?-below ls n (omega (arith, h))

pub free_slot-get :
    (ls : List LogicalPort) (n : ℕ)
    → free_slot ls ≡ some n
    → (l : LogicalPort) × (get_elem? ls n ≡ some l) × (is_free l ≡ true)
unfolding free_slot
free_slot-get [] n q = ground arith
free_slot-get (x ∷ ls) n q =
    let (k, l, e, g, y) = first_slot-get is_free 1 n ls q in
    let z : n ≡ suc k = omega (arith, e) in (l, rw z g, y)

-- What a request to change the ports of a switch is.
pub data PortRequest : Type 0 where
  attach_at : ℕ → Option ℕ → PortRequest
  attach : Option ℕ → PortRequest
  detach_at : ℕ → PortRequest
  detach : Option ℕ → PortRequest

abbrev pub perform : PortRequest → Attachments → Option (RoflResult × Attachments)
perform (attach_at n port) sw = of_attach_port_to_switch_at_port_num sw n port
perform (attach port) sw = let r = of_attach_port_to_switch sw port in some (r.0.0, r.1)
perform (detach_at n) sw = of_detach_port_from_switch_by_port_num sw n
perform (detach port) sw = some (of_detach_port_from_switch sw port)

-- What the caller has to see to: a port that is attached to a given number is not attached to the
-- switch already, and a number whose port is detached is that of a slot.
abbrev pub IsAllowed : PortRequest → Attachments → Type 0
IsAllowed (attach_at n none) sw = Unit
IsAllowed (attach_at n (some a)) sw = (sw.store a).attached_sw ≢ some sw.addr
IsAllowed (attach port) sw = Unit
IsAllowed (detach_at n) sw = n < max_log_ports
IsAllowed (detach port) sw = Unit

attach_at-ArePorts :
    (sw : Attachments) (n : ℕ) (port : Option ℕ)
    → ArePorts sw
    → IsAllowed (attach_at n port) sw
    → (r : RoflResult × Attachments) × (attach_port_to_switch_at_port_num sw n port ≡ some r)
      × ArePorts r.1
unfolding attach_port_to_switch_at_port_num
attach_at-ArePorts sw n none i u = (_, refl, i)
attach_at-ArePorts sw n (some a) i u = elim (Bool-cases (n == 0 || leb max_log_ports n)) [
  | inl y ↦ ((failure, sw), rw y refl, i)
  | inr m ↦ elim (Option-cases (get_elem? sw.logical_ports n)) [
    | inl q ↦
        let z = i.size in
        let below : n < length sw.logical_ports = ground arith in
        absurd (get_elem?-below sw.logical_ports n below q)
    | inr (l, q) ↦ elim (Bool-cases (is_free l)) [
      | inl y ↦ (
        (success, occupy sw n a),
        rw (m, q, y) refl,
        occupy-ArePorts sw n a l i q (is_free-is_attached l y) u,
      )
      | inr f ↦ ((failure, sw), rw (m, q, f) refl, i)
    ]
  ]
]

attach-ArePorts :
    (sw : Attachments) (port : Option ℕ) → ArePorts sw → ArePorts (attach_port_to_switch sw port).1
unfolding attach_port_to_switch free_slot
attach-ArePorts sw none i = i
attach-ArePorts sw (some a) i = elim (Option-cases (sw.store a).attached_sw) [
  | inr (s, y) ↦ rw y i
  | inl m ↦ elim (Option-cases (free_slot sw.logical_ports)) [
    | inl q ↦ rw (m, q) i
    | inr (n, q) ↦
        let (l, g, y) = free_slot-get sw.logical_ports n q in
        let u : (sw.store a).attached_sw ≢ some sw.addr = λ z. ground arith in
        rw (m, q) (occupy-ArePorts sw n a l i g (is_free-is_attached l y) u)
  ]
]

detach-ArePorts :
    (sw : Attachments) (port : Option ℕ)
    → ArePorts sw
    → ArePorts (detach_port_from_switch sw port).1
unfolding detach_port_from_switch
detach-ArePorts sw none i = i
detach-ArePorts sw (some a) i = elim (Option-cases (first_slot (holds a) 0 sw.logical_ports)) [
  | inl q ↦ rw (detach_port_from_switch, q) i
  | inr (n, q) ↦
      let (k, l, e, g, y) = first_slot-get (holds a) 0 n sw.logical_ports q in
      let z : k ≡ n = omega (arith, e) in
      rw (detach_port_from_switch, q) (vacate-ArePorts sw n a l i (rw z at g) (holds-port a l y))
]

detach_at-ArePorts :
    (sw : Attachments) (n : ℕ)
    → ArePorts sw
    → n < max_log_ports
    → (r : RoflResult × Attachments) × (detach_port_from_switch_by_port_num sw n ≡ some r)
      × ArePorts r.1
unfolding detach_port_from_switch_by_port_num
detach_at-ArePorts sw n i u = elim (Bool-cases (n == 0)) [
  | inl y ↦ ((failure, sw), rw y refl, i)
  | inr m ↦ elim (Option-cases (get_elem? sw.logical_ports n)) [
    | inl q ↦ let z = i.size in absurd (get_elem?-below sw.logical_ports n (omega (arith, u, z)) q)
    | inr (l, q) ↦ elim (Bool-cases (is_attached l)) [
      | inr f ↦ ((failure, sw), rw (m, q, f) refl, i)
      | inl y ↦ elim (Option-cases l.port) [
        | inl w ↦
            let s = get-IsSlot sw.addr sw.store 0 n sw.logical_ports l i.slots q in
            let z : true ≡ false = sym y ∙ s.0 ∙ ap is_some w in ground arith
        | inr (a, w) ↦
            ((success, vacate sw n a), rw (m, q, y, w) refl, vacate-ArePorts sw n a l i q w)
      ]
    ]
  ]
]

-- A request on a switch whose slots are in order has an outcome, so that no port is read through
-- NULL and no slot out of bounds, and leaves the slots in order, whether it succeeds or not: a slot is
-- attached exactly when it has a port, which has the number of the slot and the switch, and the count of
-- ports is that of the attached slots. The condition is that a port which is attached at a given number
-- is not attached to the switch already, and that a number to detach is that of a slot.
pub perform-ArePorts :
    (r : PortRequest) (sw : Attachments)
    → ArePorts sw
    → IsAllowed r sw
    → (s : RoflResult × Attachments) × (perform r sw ≡ some s) × ArePorts s.1
unfolding of_attach_port_to_switch_at_port_num of_attach_port_to_switch
    of_detach_port_from_switch_by_port_num of_detach_port_from_switch
perform-ArePorts (attach_at n port) sw i u = elim (Bool-cases (is_supported sw.of_ver)) [
  | inl y ↦ let (s, q, j) = attach_at-ArePorts sw n port i u in (s, rw y q, j)
  | inr m ↦ ((failure, sw), rw m refl, i)
]
perform-ArePorts (attach port) sw i u = elim (Bool-cases (is_supported sw.of_ver)) [
  | inl y ↦ (_, refl, rw y (attach-ArePorts sw port i))
  | inr m ↦ (_, refl, rw m i)
]
perform-ArePorts (detach_at n) sw i u = elim (Bool-cases (is_supported sw.of_ver)) [
  | inl y ↦ let (s, q, j) = detach_at-ArePorts sw n i u in (s, rw y q, j)
  | inr m ↦ ((failure, sw), rw m refl, i)
]
perform-ArePorts (detach port) sw i u = elim (Bool-cases (is_supported sw.of_ver)) [
  | inl y ↦ (_, refl, rw y (detach-ArePorts sw port i))
  | inr m ↦ (_, refl, rw m i)
]
