-- ===== src/Examples.antt =====
-- Concrete rows, jobs and calls on which the theorems are applied, and small runs of the model.
mod Data
mod Agreements
mod Requests
mod Jobs
mod Cancels
mod Offers
mod Turns
mod Stops
mod Snapshots
mod Polls
mod Services
