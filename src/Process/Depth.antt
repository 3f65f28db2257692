-- ===== src/Process/Depth.antt =====
-- How deep the processing of an action goes: a group of a well-formed group table applies actions that
-- name no groups, so the fuel of the model is enough.
use rofl_fork.Action.{Action, is_action}
use rofl_fork.Action.Types.{ActionType}
use rofl_fork.Base.{
  ◌>>=◌, ℕ, suc, ◌+◌, ◌≡◌, ◌∙◌, ap, refl, Bool, false, List, [], ◌∷◌, Option, none, some, All,
  All-find_first, All_map, ltb, ◌==◌, if◌then◌else◌, Option-cases, inl, inr,
}
use rofl_fork.Group.Parameters.{IsGroup, IsPlain}
use rofl_fork.Group.Table.{Bucket, Group, GroupType}
use rofl_fork.Packet.{Platform, bucket_update}
use rofl_fork.Process.{
  Run, Switch, each_action, process_bucket, process_buckets, group_at, process_group_buckets,
  process_group_actions, process_case, process_packet_action, depth, note, replica_run,
}

bind_same :
    {A B : Type 0} (o : Option A) (f g : A → Option B)
    → ((a : A) → f a ≡ g a)
    → (o >>= f) ≡ (o >>= g)
bind_same none f g h = refl
bind_same (some a) f g h = h a

module _ {D : Type 0} where
  -- Two ways to run the actions of a bucket agree on it.
  abbrev Agree :
      (List Action → Bool → Run D → Option (Run D))
      → (List Action → Bool → Run D → Option (Run D))
      → Bucket
      → Type 0
  Agree f g b =
      (several : Bool) (r : Run D) → f b.actions.actions several r ≡ g b.actions.actions several r

module _ {D : Type 0} (platform : Platform D) (sw : Switch) (table_id : ℕ) where
  module _ (f g : List Action → Bool → Run D → Option (Run D)) where
    bucket-Agree :
        (group i bytes : ℕ) (b : Bucket) (r : Run D)
        → Agree f g b
        → process_bucket platform sw table_id f group i bytes b r
          ≡ process_bucket platform sw table_id g group i bytes b r
    unfolding process_bucket
    bucket-Agree group i bytes b r a =
        let several = ltb 1 b.actions.num_of_output_actions in
        ap
          (λ (o : Option (Run D)).
            if b.actions.num_of_output_actions == 0 then some r else if r.released then none else o)
          (bind_same (platform.replicate r.history r.pkt) _ _
            (λ q. rw (a several (replica_run q r))))

    buckets-Agree :
        (group i bytes : ℕ) (bs : List Bucket) (r : Run D)
        → All (Agree f g) bs
        → process_buckets platform sw table_id f group i bytes bs r
          ≡ process_buckets platform sw table_id g group i bytes bs r
    unfolding process_buckets
    buckets-Agree group i bytes [] r a = refl
    buckets-Agree group i bytes (b ∷ bs) r a =
        ap
          (λ (o : Option (Run D)).
            o >>= process_buckets platform sw table_id f group (i + 1) bytes bs)
          (bucket-Agree group i bytes b r a.0)
        ∙ bind_same (process_bucket platform sw table_id g group i bytes b r) _ _
            (λ s. buckets-Agree group (i + 1) bytes bs s a.1)

    group-Agree :
        (x : Group) (replicate : Bool) (type : GroupType) (r : Run D)
        → All (Agree f g) x.bc_list.buckets
        → process_group_buckets platform sw table_id f x replicate type r
          ≡ process_group_buckets platform sw table_id g x replicate type r
    unfolding process_group_buckets
    group-Agree x replicate GroupType.all r a =
        buckets-Agree x.addr 0 r.pkt.matches.pkt_size_bytes x.bc_list.buckets r a
    group-Agree x replicate GroupType.select r a = refl
    group-Agree x replicate GroupType.ff r a = refl
    group-Agree x replicate GroupType.indirect r a = indirect x.bc_list.buckets a
      where
        indirect :
            (bs : List Bucket)
            → All (Agree f g) bs
            → (elim bs [
              | [] ↦ none
              | b ∷ cs ↦ f b.actions.actions replicate r >>= λ s.
                  some (note (bucket_update x.addr 0 s.pkt.matches.pkt_size_bytes) s)
            ])
              ≡ (elim bs [
                | [] ↦ none
                | b ∷ cs ↦ g b.actions.actions replicate r >>= λ s.
                    some (note (bucket_update x.addr 0 s.pkt.matches.pkt_size_bytes) s)
              ])
        indirect [] h = refl
        indirect (b ∷ bs) h = rw (h.0 replicate r)

    actions-Agree :
        (addr : Option ℕ) (replicate : Bool) (r : Run D)
        → All (λ x. All (Agree f g) x.bc_list.buckets) sw.pipeline.groups.groups
        → process_group_actions platform sw table_id f addr replicate r
          ≡ process_group_actions platform sw table_id g addr replicate r
    unfolding process_group_actions group_at
    actions-Agree none replicate r a = refl
    actions-Agree (some addr) replicate r a =
        elim (Option-cases (group_at platform sw table_id (some addr))) [
          | inl e ↦ rw e
          | inr (x, e) ↦
              let p =
                All-find_first (λ y. All (Agree f g) y.bc_list.buckets) (λ y. y.addr == addr)
                  sw.pipeline.groups.groups x a e in
              rw (e, group-Agree x replicate x.type r p)
        ]

  plain_step :
      (n : ℕ) (replicate : Bool) (a : Action) (r : Run D)
      → is_action ActionType.group a ≡ false
      → process_packet_action platform sw table_id (suc n) replicate a r
        ≡ process_packet_action platform sw table_id 1 replicate a r
  unfolding process_packet_action process_case
  plain_step n replicate a r e = rw e

  plain_steps :
      (n : ℕ) (several : Bool) (xs : List Action) (r : Run D)
      → All IsPlain xs
      → each_action (process_packet_action platform sw table_id (suc n) several) xs r
        ≡ each_action (process_packet_action platform sw table_id 1 several) xs r
  unfolding each_action
  plain_steps n several [] r p = refl
  plain_steps n several (a ∷ xs) r p =
      rw (plain_step n several a r p.0.0) (bind_same _ _ _ (λ s. plain_steps n several xs s p.1))

  plain_groups :
      (n : ℕ) (gs : List Group)
      → All IsGroup gs
      → All
          (λ x.
            All
              (Agree
                (λ xs several s.
                  each_action (process_packet_action platform sw table_id (suc n) several) xs s)
                (λ xs several s.
                  each_action (process_packet_action platform sw table_id 1 several) xs s))
              x.bc_list.buckets)
          gs
  plain_groups n gs p =
      All_map
        (λ x q.
          All_map (λ b h several s. plain_steps n several b.actions.actions s h.1) x.bc_list.buckets
            q.buckets)
        gs p

  -- Where all groups are well formed, an action is processed with the fuel `depth` as it is with any
  -- more: no call goes deeper.
  pub process_packet_action-depth :
      (n : ℕ) (replicate : Bool) (a : Action) (r : Run D)
      → All IsGroup sw.pipeline.groups.groups
      → process_packet_action platform sw table_id (suc (suc n)) replicate a r
        ≡ process_packet_action platform sw table_id depth replicate a r
  unfolding process_packet_action process_case
  process_packet_action-depth n replicate a r p =
      let f = λ (m : ℕ) (xs : List Action) (several : Bool) (s : Run D).
        each_action (process_packet_action platform sw table_id m several) xs s in
      rw (actions-Agree (f (suc n)) (f 1) a.group replicate r (plain_groups n _ p))
