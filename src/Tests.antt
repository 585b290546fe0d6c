-- ===== src/Tests.antt =====
-- Concrete values, and the theorems applied to them.
mod Values
mod Queues
mod Cycles
mod Requests
mod Setups
mod Starts
mod Streams
mod Plugins
mod Services
mod Objects
mod Sections
mod Journeys
