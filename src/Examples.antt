-- ===== src/Examples.antt =====
-- The theorems at concrete inputs.
mod World
mod Commitments
mod Managers
mod Stores
mod Envelopes
mod Settlements
mod Chain
mod Settling
mod Progresses
mod Prices
mod Streams
mod Restart
mod Admin
mod Scans
mod Listings
