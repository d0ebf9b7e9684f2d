-- ===== src/Worker.antt =====
-- The worker that runs the queue's jobs (bin/dipper-service/src/worker).
pub mod Backoff
pub mod Pacing
pub mod Caps
pub mod Loop
pub mod Turns
pub mod Warnings
pub mod Offers
pub mod LateAccepts
pub mod Proposals
pub mod OfferEnds
pub mod ProposalEnds
