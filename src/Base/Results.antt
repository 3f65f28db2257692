-- ===== src/Base/Results.antt =====
-- rofl_result_t of rofl_datapath.h.
pub data RoflResult : Type 0 where
  success failure : RoflResult
