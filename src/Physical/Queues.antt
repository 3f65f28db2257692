-- ===== src/Physical/Queues.antt =====
-- The queues of a port of switch_port.c, and the map from numbers to queues that they implement.
use rofl_fork.Action.{repeat}
use rofl_fork.Base.{
  ◌>>=◌, ℕ, zero, suc, ◌≡◌, ◌≢◌, ◌<◌, ap, ◌∙◌, refl, Bool, true, false, not, ◌||◌, ◌==◌, Bool-cases,
  inl, inr, List, [], ◌∷◌, Option, none, some, is_some, length, length-set, get_elem?, set, leb,
  if◌then◌else◌, arith, RoflResult, success, failure,
}
use mathlib.Core.Path.{subst}
use rofl_fork.Physical.{PortType}
use rofl_fork.Physical.Port.{
  Queue, SwitchPort, QueueRequest, queues_max, name_max, first_of, no_queue_stats, cleared_queue,
  port_queue_init, port_queue_destroy, switch_port_init, put_queue, switch_port_add_queue,
  switch_port_remove_queue,
}

-- The queues that are set, by their numbers.
abbrev pub QueueMap : Type 0
QueueMap = ℕ → Option Queue

abbrev pub changed : QueueMap → ℕ → Option Queue → QueueMap
changed f id o n = if n == id then o else f n

-- A queue as it is asked for.
abbrev pub queue_of : QueueRequest → Queue
queue_of r = record {
  set = true;
  id = r.id;
  name = first_of name_max r.name;
  length = r.length;
  min_rate = r.min_rate;
  max_rate = r.max_rate;
  stats = no_queue_stats;
}

-- A call for the queues of a port: the Boolean says whether there is a mutex for the statistics.
pub data Call : Type 0 where
  add_queue : Bool → QueueRequest → Call
  remove_queue : ℕ → Call

-- What a call is to do to the map: a queue is added at a free number below 16, or not at all without a
-- mutex, and a queue that there is is removed.
abbrev pub intended : Call → QueueMap → RoflResult × QueueMap
intended (add_queue mutex r) f =
    if leb queues_max r.id || is_some (f r.id)
    then (failure, f)
    else (success, if mutex then changed f r.id (some (queue_of r)) else f)
intended (remove_queue id) f =
    if leb queues_max id || not (is_some (f id)) then (failure, f) else (success, changed f id none)

abbrev pub intended_all : List Call → QueueMap → List RoflResult × QueueMap
intended_all [] f = ([], f)
intended_all (c ∷ cs) f =
    let r = intended c f in let rest = intended_all cs r.1 in (r.0 ∷ rest.0, rest.1)

abbrev pub answer : Call → SwitchPort → Option (RoflResult × SwitchPort)
answer (add_queue mutex r) p = switch_port_add_queue mutex p r
answer (remove_queue id) p = switch_port_remove_queue p id

abbrev pub answer_all : List Call → SwitchPort → Option (List RoflResult × SwitchPort)
answer_all [] p = some ([], p)
answer_all (c ∷ cs) p = do r ← answer c p; rest ← answer_all cs r.1; some (r.0 ∷ rest.0, rest.1)

-- The queue is what the map has at its number: cleared, where there is none.
abbrev pub IsQueue : Option Queue → Queue → Type 0
IsQueue none q = q ≡ cleared_queue
IsQueue (some u) q = (q ≡ u) × (u.set ≡ true)

-- The port has its 16 queues, and each is what the map has.
pub record Implements (f : QueueMap) (p : SwitchPort) : Type 0 where
  pub size : length p.queues ≡ queues_max
  pub queues :
      (n : ℕ) → n < queues_max → (q : Queue) × (get_elem? p.queues n ≡ some q) × IsQueue (f n) q

get-set_same :
    (qs : List Queue) (n : ℕ) (u : Queue) → n < length qs → get_elem? (set qs n u) n ≡ some u
get-set_same [] n u h = ground arith
get-set_same (q ∷ qs) zero u h = refl
get-set_same (q ∷ qs) (suc n) u h = get-set_same qs n u (omega (arith, h))

get-set_other :
    (qs : List Queue) (n i : ℕ) (u : Queue) → n ≢ i → get_elem? (set qs i u) n ≡ get_elem? qs n
get-set_other [] n i u h = refl
get-set_other (q ∷ qs) zero zero u h = absurd (h refl)
get-set_other (q ∷ qs) zero (suc i) u h = refl
get-set_other (q ∷ qs) (suc n) zero u h = refl
get-set_other (q ∷ qs) (suc n) (suc i) u h = get-set_other qs n i u (λ e. h (ap suc e))

-- A queue is changed, and with it the map at its number.
put_queue-Implements :
    (f g : QueueMap) (p : SwitchPort) (id : ℕ) (u : Queue)
    → Implements f p
    → id < queues_max
    → IsQueue (g id) u
    → ((n : ℕ) → n ≢ id → f n ≡ g n)
    → Implements g (put_queue p id u)
put_queue-Implements f g p id u i h k same = record {
  size = length-set p.queues id u ∙ i.size;
  queues = λ n l. elim (Bool-cases (n == id)) [
    | inl y ↦
        let z : id ≡ n = ground arith in
        let s = i.size in
        let below : n < length p.queues = omega arith in
        (u, rw z (get-set_same p.queues n u below), rw z at k)
    | inr m ↦
        let z : n ≢ id = λ e. ground arith in
        let (q, e, j) = i.queues n l in (q, get-set_other p.queues n id u z ∙ e, rw (same n z) at j)
  ];
}

IsQueue-set : (o : Option Queue) (q : Queue) → IsQueue o q → q.set ≡ is_some o
IsQueue-set none q k = ap (λ q. q.set) k
IsQueue-set (some u) q (e, y) = ap (λ q. q.set) e ∙ y

unset-IsQueue :
    (o : Option Queue) (q : Queue)
    → is_some o ≡ false
    → IsQueue o q
    → IsQueue o (record q { stats = no_queue_stats })
unset-IsQueue none q n k = rw k refl
unset-IsQueue (some u) q n k = ground arith

changed_same : (f : QueueMap) (id : ℕ) (o : Option Queue) → o ≡ changed f id o id
changed_same f id o = let y : (id == id) ≡ true = ground arith in rw y refl

changed_other : (f : QueueMap) (id : ℕ) (o : Option Queue) (n : ℕ) → n ≢ id → f n ≡ changed f id o n
changed_other f id o n z = elim (Bool-cases (n == id)) [
  | inl y ↦ let e : n ≡ id = ground arith in absurd (z e)
  | inr m ↦ rw m refl
]

-- The queue that is added, with the mutex or without one.
added-Implements :
    (mutex : Bool) (f : QueueMap) (p : SwitchPort) (q : Queue) (r : QueueRequest)
    → Implements f p
    → r.id < queues_max
    → is_some (f r.id) ≡ false
    → IsQueue (f r.id) q
    → Implements
        (if mutex then changed f r.id (some (queue_of r)) else f)
        (put_queue p r.id (port_queue_init mutex q r).1)
unfolding port_queue_init
added-Implements true f p q r i h n k =
    let g = changed f r.id (some (queue_of r)) in
    let c = changed_same f r.id (some (queue_of r)) in
    put_queue-Implements f g p r.id (queue_of r) i h
      (subst (λ o. IsQueue o (queue_of r)) c (refl, refl))
      (changed_other f r.id (some (queue_of r)))
added-Implements false f p q r i h n k =
    put_queue-Implements f f p r.id (record q { stats = no_queue_stats }) i h
      (unset-IsQueue (f r.id) q n k) (λ m z. refl)

-- The call has the outcome and does what is intended.
abbrev pub IsDone : Call → QueueMap → SwitchPort → Type 0
IsDone c f p =
    (s : SwitchPort) × (answer c p ≡ some ((intended c f).0, s)) × Implements (intended c f).1 s

add_queue-IsDone :
    (mutex : Bool) (r : QueueRequest) (f : QueueMap) (p : SwitchPort)
    → Implements f p
    → IsDone (add_queue mutex r) f p
unfolding switch_port_add_queue
add_queue-IsDone mutex r f p i = elim (Bool-cases (leb queues_max r.id)) [
  | inl y ↦ (p, rw y refl, rw y i)
  | inr n ↦
      let h : r.id < queues_max = ground arith in
      let (q, e, k) = i.queues r.id h in
      let s = IsQueue-set (f r.id) q k in
      elim (Bool-cases (is_some (f r.id))) [
        | inl y ↦ (p, rw (n, e, s, y) refl, rw (n, y) i)
        | inr m ↦ (
          put_queue p r.id (port_queue_init mutex q r).1,
          rw (n, e, s, m) refl,
          rw (n, m) (added-Implements mutex f p q r i h m k),
        )
      ]
]

remove_queue-IsDone :
    (id : ℕ) (f : QueueMap) (p : SwitchPort) → Implements f p → IsDone (remove_queue id) f p
unfolding switch_port_remove_queue port_queue_destroy
remove_queue-IsDone id f p i = elim (Bool-cases (leb queues_max id)) [
  | inl y ↦ (p, rw y refl, rw y i)
  | inr n ↦
      let h : id < queues_max = ground arith in
      let (q, e, k) = i.queues id h in
      let s = IsQueue-set (f id) q k in
      let g = changed f id none in
      let c = subst (λ o. IsQueue o cleared_queue) (changed_same f id none) refl in
      elim (Bool-cases (is_some (f id))) [
        | inr m ↦ (p, rw (n, e, s, m) refl, rw (n, m) i)
        | inl y ↦ (
          put_queue p id cleared_queue,
          rw (n, e, s, y) refl,
          rw (n, y) (put_queue-Implements f g p id cleared_queue i h c (changed_other f id none)),
        )
      ]
]

answer-IsDone : (c : Call) (f : QueueMap) (p : SwitchPort) → Implements f p → IsDone c f p
answer-IsDone (add_queue mutex r) f p i = add_queue-IsDone mutex r f p i
answer-IsDone (remove_queue id) f p i = remove_queue-IsDone id f p i

answer_all-Implements :
    (cs : List Call) (f : QueueMap) (p : SwitchPort)
    → Implements f p
    → (s : SwitchPort) × (answer_all cs p ≡ some ((intended_all cs f).0, s))
      × Implements (intended_all cs f).1 s
answer_all-Implements [] f p i = (p, refl, i)
answer_all-Implements (c ∷ cs) f p i =
    let (s, q, j) = answer-IsDone c f p i in
    let (u, e, k) = answer_all-Implements cs (intended c f).1 s j in (u, rw (q, ◌>>=◌, e) refl, k)

get-cleared : (n m : ℕ) → n < m → get_elem? (repeat m cleared_queue) n ≡ some cleared_queue
get-cleared n zero h = ground arith
get-cleared zero (suc m) h = refl
get-cleared (suc n) (suc m) h = get-cleared n m (omega (arith, h))

abbrev pub no_queues : QueueMap
no_queues n = none

cleared-Implements :
    (p : SwitchPort) → p.queues ≡ repeat queues_max cleared_queue → Implements no_queues p
cleared-Implements p e = record {
  size = ap length e;
  queues = λ n l. (cleared_queue, ap (λ qs. get_elem? qs n) e ∙ get-cleared n queues_max l, refl);
}

-- A port that is created with memory and its mutexes implements a map of queues: any additions and
-- removals of queues have the results that the map says, so that no queue is read out of bounds, and
-- leave the port with its 16 queues, each as the map has it: with what was asked for, and cleared
-- where the map has none. An addition is refused at a number above 15 or where a queue is, adds nothing
-- without a mutex, and leaves the other queues alone; a removal is refused where no queue is.
pub reachable-Implements :
    (name : List ℕ) (up : Bool) (type : PortType) (state : ℕ) (cs : List Call)
    → (p : SwitchPort) × (s : SwitchPort) × (switch_port_init true true true name up type state
        ≡ some p)
      × (answer_all cs p ≡ some ((intended_all cs no_queues).0, s))
      × Implements (intended_all cs no_queues).1 s
unfolding switch_port_init
reachable-Implements name up type state cs =
    let (s, e, k) = answer_all-Implements cs no_queues _ (cleared-Implements _ refl) in
    (_, s, refl, e, k)
