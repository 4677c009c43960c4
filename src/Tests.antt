-- ===== src/Tests.antt =====
-- Runs of the development's theorems at concrete inputs.
mod Tables
mod Nodes
mod Names
mod Announcements
mod Lookups
mod Filters
mod Searches
mod Cards
mod Peers
mod Messages
mod Requests
mod Engine
mod Connections
mod Events
