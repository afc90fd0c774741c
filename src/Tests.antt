-- ===== src/Tests.antt =====
-- Runs of the definitions on small inputs, most of them those of the program's own tests, and each
-- property at an input that meets its hypotheses.
mod Bootstraps
mod Connections
mod Places
mod Probes
mod Crawls
mod Snapshots
mod Serving
mod Passes
mod Startups
mod Shuffles
mod Circuits
mod Scrapes
mod Reports
mod Swaps
mod Documents
mod Pins
mod Records
mod Sealed
mod Asked
