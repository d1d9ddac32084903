-- ===== src/Tests.antt =====
-- Concrete services, and the theorems at concrete inputs.
mod Codecs
mod Fake
mod Pipeline
mod Workers
mod Chats
mod Encodings
mod Stores
mod Stocks
mod Deliveries
mod Tables
mod Jobs
mod Queues
mod Routes
mod Runs
mod Databases
mod Setups
