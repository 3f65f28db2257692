-- ===== src/Switch/Ports.antt =====
-- The slots of a logical switch and the ports that they hold point to each other.
use rofl_fork.Base.{
  ℕ, zero, suc, ◌+◌, ◌≡◌, ◌≢◌, ◌≤◌, ◌<◌, ap, ◌∙◌, refl, Bool, true, false, Bool-cases, inl, inr,
  List, [], ◌∷◌, Option, none, some, get_elem?, set, length, length-set, is_some, ==_iff, arith,
  ◌==◌, some_injective,
}
use rofl_fork.Switch.{
  state_attached, state_detached, LogicalPort, Port, Attachments, put_port, is_attached, occupy,
  vacate, max_log_ports, first_slot,
}

-- The port of the slot has the number of the slot and the switch.
abbrev pub PointsBack : ℕ → (ℕ → Port) → ℕ → Option ℕ → Type 0
PointsBack addr store i none = Unit
PointsBack addr store i (some a) = ((store a).of_port_num ≡ i) × ((store a).attached_sw ≡ some addr)

-- A slot is attached exactly when it has a port, which points back to it.
abbrev pub IsSlot : ℕ → (ℕ → Port) → ℕ → LogicalPort → Type 0
IsSlot addr store i l = (is_attached l ≡ is_some l.port) × PointsBack addr store i l.port

-- The slots, which are numbered from the given one on.
abbrev pub AreSlots : ℕ → (ℕ → Port) → ℕ → List LogicalPort → Type 0
AreSlots addr store i [] = Unit
AreSlots addr store i (l ∷ ls) = IsSlot addr store i l × AreSlots addr store (i + 1) ls

abbrev pub one : Bool → ℕ
one true = 1
one false = 0

abbrev pub attached_count : List LogicalPort → ℕ
attached_count [] = 0
attached_count (l ∷ ls) = one (is_attached l) + attached_count ls

-- A switch whose slots are in order, and whose count of ports is that of the attached slots.
pub record ArePorts (sw : Attachments) : Type 0 where
  pub slots : AreSlots sw.addr sw.store 0 sw.logical_ports
  pub count : sw.num_of_ports ≡ attached_count sw.logical_ports
  pub size : length sw.logical_ports ≡ max_log_ports

module _ (addr a : ℕ) (p : Port) (store : ℕ → Port) where
  -- If the port is attached to this switch, it is at this number.
  abbrev pub IsOnlyAt : ℕ → Type 0
  IsOnlyAt n = (store a).attached_sw ≡ some addr → (store a).of_port_num ≡ n

  other-PointsBack :
      (i : ℕ) (o : Option ℕ)
      → ¬ PointsBack addr store i (some a)
      → PointsBack addr store i o
      → PointsBack addr (put_port a p store) i o
  other-PointsBack i none n b = tt
  other-PointsBack i (some c) n b = elim (Bool-cases (c == a)) [
    | inl y ↦ let q : c ≡ a = (==_iff c a).0 y in absurd (n (rw q at b))
    | inr m ↦ rw m b
  ]

  other-AreSlots :
      (n i : ℕ) (ls : List LogicalPort)
      → IsOnlyAt n
      → n < i
      → AreSlots addr store i ls
      → AreSlots addr (put_port a p store) i ls
  other-AreSlots n i [] u m s = tt
  other-AreSlots n i (l ∷ ls) u m (s, r) = (
    (s.0, other-PointsBack i l.port (λ b. let q = u b.1 in let c = b.0 in omega arith) s.1),
    other-AreSlots n (i + 1) ls u (omega arith) r,
  )

  set-AreSlots :
      (i k : ℕ) (ls : List LogicalPort) (v : LogicalPort)
      → IsOnlyAt (i + k)
      → IsSlot addr (put_port a p store) (i + k) v
      → AreSlots addr store i ls
      → AreSlots addr (put_port a p store) i (set ls k v)
  set-AreSlots i k [] v u w s = tt
  set-AreSlots i zero (l ∷ ls) v u w (s, r) =
      let z : i + 0 ≡ i = omega arith in
      (rw z at w, other-AreSlots (i + 0) (i + 1) ls u (omega arith) r)
  set-AreSlots i (suc k) (l ∷ ls) v u w (s, r) =
      let z : i + suc k ≡ i + 1 + k = omega arith in
      (
        (s.0, other-PointsBack i l.port (λ b. let q = u b.1 in let c = b.0 in omega arith) s.1),
        set-AreSlots (i + 1) k ls v (rw z at u) (rw z at w) r,
      )

pub get-IsSlot :
    (addr : ℕ) (store : ℕ → Port) (i k : ℕ) (ls : List LogicalPort) (l : LogicalPort)
    → AreSlots addr store i ls
    → get_elem? ls k ≡ some l
    → IsSlot addr store (i + k) l
get-IsSlot addr store i k [] l s q = ground arith
get-IsSlot addr store i zero (x ∷ ls) l s q =
    let z : i + 0 ≡ i = omega arith in rw (z, ← some_injective q) s.0
get-IsSlot addr store i (suc k) (x ∷ ls) l s q =
    let z : i + suc k ≡ i + 1 + k = omega arith in rw z (get-IsSlot addr store (i + 1) k ls l s.1 q)

attached_count-set :
    (k : ℕ) (ls : List LogicalPort) (l v : LogicalPort)
    → get_elem? ls k ≡ some l
    → attached_count (set ls k v) + one (is_attached l) ≡ attached_count ls + one (is_attached v)
attached_count-set k [] l v q = ground arith
attached_count-set zero (x ∷ ls) l v q = rw (some_injective q) (omega arith)
attached_count-set (suc k) (x ∷ ls) l v q =
    let h = attached_count-set k ls l v q in omega (arith, h)

pub attached_count-length : (ls : List LogicalPort) → attached_count ls ≤ length ls
attached_count-length [] = omega arith
attached_count-length (l ∷ ls) =
    let h = attached_count-length ls in
    elim (Bool-cases (is_attached l)) [
      | inl y ↦ rw y (omega (arith, h))
      | inr n ↦ rw n (omega (arith, h))
    ]

pub occupy-ArePorts :
    (sw : Attachments) (n a : ℕ) (l : LogicalPort)
    → ArePorts sw
    → get_elem? sw.logical_ports n ≡ some l
    → is_attached l ≡ false
    → (sw.store a).attached_sw ≢ some sw.addr
    → ArePorts (occupy sw n a)
unfolding occupy
occupy-ArePorts sw n a l i q f u =
    let v : LogicalPort = record { attachment_state = state_attached; port = some a } in
    let p : Port = record { of_port_num = n; attached_sw = some sw.addr } in
    let y : (a == a) ≡ true = ground arith in
    let z : 0 + n ≡ n = omega arith in
    let c = attached_count-set n sw.logical_ports l v q in
    let b = attached_count-length sw.logical_ports in
    let d = i.count in
    let e = i.size in
    let g : one (is_attached l) ≡ 0 = ap one f in
    record {
      slots =
          set-AreSlots sw.addr a p sw.store 0 n sw.logical_ports v (λ x. absurd (u x))
            (rw (z, y) (refl, (refl, refl))) i.slots;
      count = omega (arith, b, c, d, e, g);
      size = length-set sw.logical_ports n v ∙ i.size;
    }

pub vacate-ArePorts :
    (sw : Attachments) (n a : ℕ) (l : LogicalPort)
    → ArePorts sw
    → get_elem? sw.logical_ports n ≡ some l
    → l.port ≡ some a
    → ArePorts (vacate sw n a)
unfolding vacate
vacate-ArePorts sw n a l i q f =
    let v : LogicalPort = record { attachment_state = state_detached; port = none } in
    let p : Port = record { of_port_num = 0; attached_sw = none } in
    let c = attached_count-set n sw.logical_ports l v q in
    let b = attached_count-length sw.logical_ports in
    let d = i.count in
    let e = i.size in
    let s = get-IsSlot sw.addr sw.store 0 n sw.logical_ports l i.slots q in
    let g : one (is_attached l) ≡ 1 = ap one (s.0 ∙ ap is_some f) in
    let t = rw f at s.1 in
    record {
      slots =
          set-AreSlots sw.addr a p sw.store 0 n sw.logical_ports v (λ _. t.0) (refl, tt) i.slots;
      count = omega (arith, b, c, d, e, g);
      size = length-set sw.logical_ports n v ∙ i.size;
    }

-- The slot that a search finds.
pub first_slot-get :
    (p : LogicalPort → Bool) (i n : ℕ) (ls : List LogicalPort)
    → first_slot p i ls ≡ some n
    → (k : ℕ) × (l : LogicalPort) × (n ≡ i + k) × (get_elem? ls k ≡ some l) × (p l ≡ true)
unfolding first_slot
first_slot-get p i n [] q = ground arith
first_slot-get p i n (l ∷ ls) q = elim (Bool-cases (p l)) [
  | inl y ↦ let e : i ≡ n = some_injective (rw y at q) in (0, l, omega (arith, e), refl, y)
  | inr m ↦
      let (k, x, e, g, y) = first_slot-get p (i + 1) n ls (rw m at q) in
      (suc k, x, omega (arith, e), g, y)
]
