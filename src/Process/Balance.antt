-- ===== src/Process/Balance.antt =====
-- The packets that the processing of a packet replicates and gives back to the platform, counted in its
-- history.
use rofl_fork.Base.{ℕ, ◌+◌, List, [], ◌∷◌}
use rofl_fork.Packet.{
  PacketEvent, replicated, dropped, sent, packet_in, bucket_update, group_update,
}

module _ {D : Type 0} where
  unfoldable pub replicas : List (PacketEvent D) → ℕ
  replicas [] = 0
  replicas (replicated p ∷ h) = replicas h + 1
  replicas (dropped p ∷ h) = replicas h
  replicas (sent p o ∷ h) = replicas h
  replicas (packet_in i p c ∷ h) = replicas h
  replicas (bucket_update g i n ∷ h) = replicas h
  replicas (group_update g n ∷ h) = replicas h

  unfoldable pub releases : List (PacketEvent D) → ℕ
  releases [] = 0
  releases (replicated p ∷ h) = releases h
  releases (dropped p ∷ h) = releases h + 1
  releases (sent p o ∷ h) = releases h + 1
  releases (packet_in i p c ∷ h) = releases h + 1
  releases (bucket_update g i n ∷ h) = releases h
  releases (group_update g n ∷ h) = releases h
