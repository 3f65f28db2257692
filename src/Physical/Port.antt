-- ===== src/Physical/Port.antt =====
-- switch_port.c and port_queue.c: a port with its queues and statistics.
use rofl_fork.Base.{
  ℕ, zero, suc, ◌+◌, ◌-◌, ◌%◌, ◌^◌, Bool, true, false, ◌&&◌, not, bit_and, bit_or, List, [], ◌∷◌,
  Option, none, some, leb, ltb, if◌then◌else◌, get_elem?, set, RoflResult, success, failure,
}
use rofl_fork.Action.{repeat}
use rofl_fork.Physical.{PortType}

-- queue_stats_t.
pub record QueueStats : Type 0 where
  pub tx_packets : ℕ
  pub tx_bytes : ℕ
  pub overrun : ℕ

-- port_queue_t; the name is the characters before its end.
pub record Queue : Type 0 where
  pub set : Bool
  pub id : ℕ
  pub name : List ℕ
  pub length : ℕ
  pub min_rate : ℕ
  pub max_rate : ℕ
  pub stats : QueueStats

-- The counters of port_stats_t that the code counts.
pub record PortStats : Type 0 where
  pub rx_packets : ℕ
  pub tx_packets : ℕ
  pub rx_bytes : ℕ
  pub tx_bytes : ℕ
  pub rx_dropped : ℕ
  pub tx_dropped : ℕ

-- switch_port_t, the hardware address aside, which is not set.
pub record SwitchPort : Type 0 where
  pub up : Bool
  pub forward_packets : Bool
  pub drop_received : Bool
  pub no_flood : Bool
  pub type : PortType
  pub name : List ℕ
  pub state : ℕ
  pub stats : PortStats
  pub curr : ℕ
  pub advertised : ℕ
  pub supported : ℕ
  pub peer : ℕ
  pub curr_speed : ℕ
  pub curr_max_speed : ℕ
  pub max_queues : ℕ
  pub queues : List Queue
  pub of_generate_packet_in : Bool
  pub of_port_num : ℕ
  pub attached_sw : Option ℕ

-- SWITCH_PORT_MAX_QUEUES, and the length of a name, PORT_QUEUE_MAX_LEN_NAME and
-- SWITCH_PORT_MAX_LEN_NAME.
abbrev pub queues_max : ℕ
queues_max = 16

abbrev pub name_max : ℕ
name_max = 32

-- strncpy.
abbrev pub first_of : ℕ → List ℕ → List ℕ
first_of zero cs = []
first_of (suc n) [] = []
first_of (suc n) (c ∷ cs) = c ∷ first_of n cs

abbrev pub no_queue_stats : QueueStats
no_queue_stats = record { tx_packets = 0; tx_bytes = 0; overrun = 0 }

-- A queue that memset has cleared.
abbrev pub cleared_queue : Queue
cleared_queue = record {
  set = false;
  id = 0;
  name = [];
  length = 0;
  min_rate = 0;
  max_rate = 0;
  stats = no_queue_stats;
}

-- What a queue is to be.
pub record QueueRequest : Type 0 where
  pub id : ℕ
  pub name : List ℕ
  pub length : ℕ
  pub min_rate : ℕ
  pub max_rate : ℕ

-- Whether there is a mutex for the statistics is an argument.
unfoldable pub port_queue_init : Bool → Queue → QueueRequest → RoflResult × Queue
port_queue_init mutex q r =
    if mutex
    then (
      success,
      record {
        set = true;
        id = r.id;
        name = first_of name_max r.name;
        length = r.length;
        min_rate = r.min_rate;
        max_rate = r.max_rate;
        stats = no_queue_stats;
      },
    )
    else (failure, record q { stats = no_queue_stats })

unfoldable pub port_queue_destroy : Queue → Queue
port_queue_destroy q = cleared_queue

unfoldable pub port_queue_stats_inc : Queue → ℕ → ℕ → ℕ → Queue
port_queue_stats_inc q tx_packets tx_bytes overrun = record q {
  stats = record {
    tx_packets = (q.stats.tx_packets + tx_packets) % 2 ^ 64;
    tx_bytes = (q.stats.tx_bytes + tx_bytes) % 2 ^ 64;
    overrun = (q.stats.overrun + overrun) % 2 ^ 64;
  };
}

-- Whether there is memory, and a mutex for the port and one for its statistics, are arguments.
unfoldable pub switch_port_init :
    Bool → Bool → Bool → List ℕ → Bool → PortType → ℕ → Option SwitchPort
switch_port_init memory mutex stats_mutex name up type state =
    if not (memory && (mutex && stats_mutex))
    then none
    else some (record {
      up = up;
      forward_packets = true;
      drop_received = false;
      no_flood = false;
      type = type;
      name = first_of name_max name;
      state = state;
      stats = record {
        rx_packets = 0;
        tx_packets = 0;
        rx_bytes = 0;
        tx_bytes = 0;
        rx_dropped = 0;
        tx_dropped = 0;
      };
      curr = 0;
      advertised = 0;
      supported = 0;
      peer = 0;
      curr_speed = 0;
      curr_max_speed = 0;
      max_queues = queues_max;
      queues = repeat queues_max cleared_queue;
      of_generate_packet_in = true;
      of_port_num = 0;
      attached_sw = none;
    })

-- The queue at a number, or a failure; `none` is a queue read out of bounds.
abbrev pub at_queue :
    SwitchPort → ℕ → (Queue → RoflResult × SwitchPort) → Option (RoflResult × SwitchPort)
at_queue p id run =
    if leb queues_max id
    then some (failure, p)
    else elim (get_elem? p.queues id) [ none ↦ none | some q ↦ some (run q) ]

abbrev pub put_queue : SwitchPort → ℕ → Queue → SwitchPort
put_queue p id q = record p { queues = set p.queues id q }

-- The result of the initialisation of the queue is not asked for.
unfoldable pub switch_port_add_queue :
    Bool → SwitchPort → QueueRequest → Option (RoflResult × SwitchPort)
unfolding port_queue_init
switch_port_add_queue mutex p r =
    at_queue p r.id (λ q.
      if q.set then (failure, p) else (success, put_queue p r.id (port_queue_init mutex q r).1))

unfoldable pub switch_port_remove_queue : SwitchPort → ℕ → Option (RoflResult × SwitchPort)
unfolding port_queue_destroy
switch_port_remove_queue p id =
    at_queue p id
      (λ q. if not q.set then (failure, p) else (success, put_queue p id (port_queue_destroy q)))

unfoldable pub switch_port_stats_inc : SwitchPort → PortStats → SwitchPort
switch_port_stats_inc p d = record p {
  stats = record {
    rx_packets = (p.stats.rx_packets + d.rx_packets) % 2 ^ 64;
    tx_packets = (p.stats.tx_packets + d.tx_packets) % 2 ^ 64;
    rx_bytes = (p.stats.rx_bytes + d.rx_bytes) % 2 ^ 64;
    tx_bytes = (p.stats.tx_bytes + d.tx_bytes) % 2 ^ 64;
    rx_dropped = (p.stats.rx_dropped + d.rx_dropped) % 2 ^ 64;
    tx_dropped = (p.stats.tx_dropped + d.tx_dropped) % 2 ^ 64;
  };
}

-- Bit maps of 32 bits.
unfoldable pub switch_port_add_capabilities : ℕ → ℕ → ℕ
switch_port_add_capabilities bitmap features = bit_or bitmap features

unfoldable pub switch_port_remove_capabilities : ℕ → ℕ → ℕ
switch_port_remove_capabilities bitmap features = bit_and bitmap (2 ^ 32 - 1 - features % 2 ^ 32)

-- PORT_FEATURE_1TB_FD.
abbrev pub fastest : ℕ
fastest = 2 ^ 9

unfoldable pub switch_port_set_current_speed : SwitchPort → ℕ → SwitchPort
switch_port_set_current_speed p speed =
    if ltb fastest speed then p else record p { curr_speed = speed }

unfoldable pub switch_port_set_current_max_speed : SwitchPort → ℕ → SwitchPort
switch_port_set_current_max_speed p speed =
    if ltb fastest speed then p else record p { curr_max_speed = speed }
