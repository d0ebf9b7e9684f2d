-- ===== src/Examples/Data.antt =====
-- Test data: two requests' worth of agreements in the registry of dipper-pgregistry.
use dipper.Prelude.{ℕ, List, [], ◌∷◌, some, false, pos}
use dipper.Registry.Types.{accepted_on_chain, open_, Terms, Agreement, IndexingRequest, Registry}
use dipper.Registry.Registration.{NewAgreementParams, new_agreement}

abbrev pub terms_1 : Terms
terms_1 = record {
  payer = 1;
  service_provider = 2;
  data_service = 3;
  deadline = 400;
  ends_at = 9000;
  max_initial_tokens = 10;
  max_ongoing_tokens_per_second = 1;
  min_seconds_per_collection = 60;
  max_seconds_per_collection = 600;
  conditions = 0;
  tokens_per_second = 1;
  tokens_per_entity_per_second = 1;
  subgraph_deployment_id = 30;
  protocol_network = 42161;
  chain_id = 1;
  proposed_at = 100;
}

abbrev pub params_of : ℕ → ℕ → NewAgreementParams
params_of id indexer = record {
  agreement_id = id;
  nonce_uuid = id;
  request_id = 7;
  deployment_id = 30;
  indexer_id = indexer;
  indexer_url = 80;
  terms = terms_1;
  terms_version_hash = some (
      1 ∷ 2 ∷ 3 ∷ 4 ∷ 5 ∷ 6 ∷ 7 ∷ 8 ∷ 9 ∷ 10 ∷ 11 ∷ 12 ∷ 13 ∷ 14 ∷ 15 ∷ 16 ∷ 17 ∷ 18 ∷ 19 ∷ 20 ∷ 21
      ∷ 22 ∷ 23 ∷ 24 ∷ 25 ∷ 26 ∷ 27 ∷ 28 ∷ 29 ∷ 30 ∷ 31 ∷ 32 ∷ []);
}

-- Created, with an indexer each.
abbrev pub created_1 : Agreement
created_1 = new_agreement 100 (params_of 1 11)

abbrev pub created_2 : Agreement
created_2 = new_agreement 100 (params_of 2 12)

abbrev pub accepted_3 : Agreement
accepted_3 = record (new_agreement 90 (params_of 3 13)) {
  status = accepted_on_chain;
  accepted_at = some (pos 95);
}

abbrev pub agreements_0 : List Agreement
agreements_0 = created_1 ∷ created_2 ∷ accepted_3 ∷ []

abbrev pub request_7 : IndexingRequest
request_7 = record {
  id = 7;
  created_at = 50;
  updated_at = 50;
  status = open_;
  requested_by = 9;
  deployment_id = 30;
  deployment_chain_id = 1;
  num_candidates = 3;
  shortfall_active = false;
}

abbrev pub registry_0 : Registry
registry_0 = record {
  requests = request_7 ∷ [];
  agreements = agreements_0;
  pending_cancellations = [];
}
