-- ===== src/Examples.antt =====
-- Small inputs, and the theorems applied to them.
mod Data
mod Units
mod Trackers
mod Brokers
mod Jobs
mod Ticks
mod Runs
mod Stores
mod Windows
mod Listings
mod Steps
mod Timelines
mod Scans
mod Fields
mod Forecasts
mod Retentions
mod Databases
mod Volumes
mod Bands
mod Inputs
mod Subsets
mod Groups
