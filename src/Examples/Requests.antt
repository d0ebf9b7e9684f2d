-- ===== src/Examples/Requests.antt =====
-- The theorems on requests and on the pairs of a replacement.
use dipper.Prelude.{refl, [], ◌∷◌, arith, exists, update}
use dipper.Registry.Types.{IndexingRequest}
use dipper.Registry.Requests.{Key, find_open, set_target, set_indexing_target_candidates, updated}
use dipper.Registry.Targets.{Settled, TargetIs, open_count, set_indexing_target_candidates-target}
use dipper.Examples.Data.{request_7}

abbrev key_7 : Key
key_7 = record { requested_by = 9; deployment_id = 30; deployment_chain_id = 1 }

Settled-7 : Settled key_7 (request_7 ∷ [])
unfolding open_count exists
Settled-7 = record { once = omega arith; wanted = refl }

abbrev retargeted_7 : IndexingRequest
retargeted_7 = record request_7 { num_candidates = 5; updated_at = 60 }

set_indexing_target_candidates-target_example :
    TargetIs key_7 5 (retargeted_7 ∷ []) × Settled key_7 (retargeted_7 ∷ [])
unfolding set_indexing_target_candidates set_target find_open update
set_indexing_target_candidates-target_example =
    set_indexing_target_candidates-target 8 60 key_7 5 (request_7 ∷ []) (retargeted_7 ∷ [])
      (updated 7 5) Settled-7 refl
