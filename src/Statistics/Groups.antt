-- ===== src/Statistics/Groups.antt =====
-- of1x_get_group_stats and of1x_get_group_all_stats of of1x_statistics.c.
use rofl_fork.Base.{
  ◌>>=◌, ℕ, ◌≡◌, ap, sym, ◌∙◌, refl, true, false, List, [], ◌∷◌, ◌++◌, map, Option, none, some,
  find_first, append_assoc, All_middle, suc, arith,
}
use rofl_fork.Group.Table.{Bucket, Group, GroupTable, has_id, group_search}
use rofl_fork.Group.Invariant.{AreDistinct, IsGroupTable}
use rofl_fork.Statistics.Copies.{Memory, later}
use rofl_fork.Statistics.Flows.{IsPlentiful}

-- of1x_stats_bucket_counter_t.
pub record BucketCounters : Type 0 where
  pub packet_count : ℕ
  pub byte_count : ℕ

-- of1x_stats_group_msg_t, with the counters of the buckets.
pub record GroupMessage : Type 0 where
  pub group_id : ℕ
  pub ref_count : ℕ
  pub packet_count : ℕ
  pub byte_count : ℕ
  pub num_of_buckets : ℕ
  pub bucket_stats : List BucketCounters

abbrev pub bucket_counters : Bucket → BucketCounters
bucket_counters b = record { packet_count = b.packet_count; byte_count = b.byte_count }

-- The message of a group; the bytes are filled in from the packets.
unfoldable pub fill_group_message : ℕ → Group → GroupMessage
fill_group_message id g = record {
  group_id = id;
  ref_count = g.ref_count;
  packet_count = g.packet_count;
  byte_count = g.packet_count;
  num_of_buckets = g.bc_list.num_of_buckets;
  bucket_stats = map bucket_counters g.bc_list.buckets;
}

-- The inner `none` is NULL. Without memory the code writes through NULL.
unfoldable pub get_group_stats : GroupTable → ℕ → Memory → Option (Option GroupMessage × Memory)
unfolding group_search
get_group_stats gt id m = elim (group_search gt id) [
  | none ↦ some (none, m)
  | some g ↦ elim (m 0) [
    | none ↦ none
    | some raw ↦ elim (m 1) [
      | none ↦ none
      | some raw' ↦ some (some (fill_group_message id g), later (later m))
    ]
  ]
]

abbrev pub linked : Option GroupMessage → List GroupMessage → List GroupMessage
linked none ms = ms
linked (some g) ms = g ∷ ms

-- The messages of the groups, each of which is searched by its identifier. The search finds one, so that
-- none of them is NULL.
unfoldable pub collect_group_stats :
    GroupTable → List Group → Memory → Option (List GroupMessage × Memory)
unfolding get_group_stats
collect_group_stats gt [] m = some ([], m)
collect_group_stats gt (g ∷ gs) m = do
  r ← get_group_stats gt g.id m
  rest ← collect_group_stats gt gs r.1
  some (linked r.0 rest.0, rest.1)

unfoldable pub get_group_all_stats : GroupTable → Memory → Option (List GroupMessage × Memory)
unfolding collect_group_stats
get_group_all_stats gt m = collect_group_stats gt gt.groups m

-- The group between others of other identifiers is the one that is found.
find_middle :
    (ds : List Group) (g : Group) (gs : List Group)
    → AreDistinct (ds ++ g ∷ gs)
    → find_first (has_id g.id) (ds ++ g ∷ gs) ≡ some g
unfolding find_first
find_middle [] g gs d = let y : has_id g.id g ≡ true = ground arith in rw y refl
find_middle (e ∷ ds) g gs (u, d) =
    let n = All_middle (λ x. has_id e.id x ≡ false) ds g gs u in
    let m : has_id g.id e ≡ false = ground arith in rw m (find_middle ds g gs d)

collect_group_stats-all :
    (gt : GroupTable) (ds gs : List Group) (m : Memory)
    → gt.groups ≡ ds ++ gs
    → AreDistinct gt.groups
    → IsPlentiful m
    → (n : Memory) × (collect_group_stats gt gs m
        ≡ some (map (λ g. fill_group_message g.id g) gs, n))
unfolding collect_group_stats get_group_stats group_search
collect_group_stats-all gt ds [] m e d l = (m, refl)
collect_group_stats-all gt ds (g ∷ gs) m e d l =
    let f : group_search gt g.id ≡ some g =
      ap (find_first (has_id g.id)) e ∙ find_middle ds g gs (rw e at d) in
    let (n, q) =
      collect_group_stats-all gt (ds ++ g ∷ []) gs (later (later m))
        (e ∙ sym (append_assoc ds (g ∷ []) gs)) d (λ i. l (suc (suc i))) in
    (n, rw (collect_group_stats, f, (l 0).1, (l 1).1, ◌>>=◌, q) refl)

-- The elements of two lists of one length are related, one by one.
abbrev pub AreRelated : {A B : Type 0} → (A → B → Type 0) → List A → List B → Type 0
AreRelated R [] [] = Unit
AreRelated R [] (b ∷ bs) = ⊥
AreRelated R (a ∷ as') [] = ⊥
AreRelated R (a ∷ as') (b ∷ bs) = R a b × AreRelated R as' bs

-- The counters are those of the bucket.
abbrev pub IsCountOf : Bucket → BucketCounters → Type 0
IsCountOf b c = (c.packet_count ≡ b.packet_count) × (c.byte_count ≡ b.byte_count)

-- The message is about the group; the number of its bytes is that of its packets.
abbrev pub IsMessageOf : Group → GroupMessage → Type 0
IsMessageOf g m =
    (m.group_id ≡ g.id)
    × (m.ref_count ≡ g.ref_count)
    × (m.packet_count ≡ g.packet_count)
    × (m.byte_count ≡ g.packet_count)
    × (m.num_of_buckets ≡ g.bc_list.num_of_buckets)
    × AreRelated IsCountOf g.bc_list.buckets m.bucket_stats

bucket_counters-IsCountOf : (bs : List Bucket) → AreRelated IsCountOf bs (map bucket_counters bs)
bucket_counters-IsCountOf [] = tt
bucket_counters-IsCountOf (b ∷ bs) = ((refl, refl), bucket_counters-IsCountOf bs)

fill_group_message-IsMessageOf :
    (gs : List Group) → AreRelated IsMessageOf gs (map (λ g. fill_group_message g.id g) gs)
unfolding fill_group_message
fill_group_message-IsMessageOf [] = tt
fill_group_message-IsMessageOf (g ∷ gs) = (
  (refl, refl, refl, refl, refl, bucket_counters-IsCountOf g.bc_list.buckets),
  fill_group_message-IsMessageOf gs,
)

-- With memory, the statistics of all groups of a table in order have one message for each group, in the
-- order of the table: it has the identifier and the references of the group, the count of its packets
-- for its packets and also for its bytes, the number of its buckets, and the packets and bytes of each
-- bucket in their order.
pub get_group_all_stats-all :
    (gt : GroupTable) (m : Memory)
    → IsGroupTable gt
    → IsPlentiful m
    → (ms : List GroupMessage) × (n : Memory) × (get_group_all_stats gt m ≡ some (ms, n))
      × AreRelated IsMessageOf gt.groups ms
unfolding get_group_all_stats
get_group_all_stats-all gt m i l =
    let (n, q) = collect_group_stats-all gt [] gt.groups m refl i.distinct l in
    (_, n, q, fill_group_message-IsMessageOf gt.groups)
