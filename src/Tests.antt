-- ===== src/Tests.antt =====
-- Runs of the modelled code on concrete data, and the theorems on concrete data.
mod Queue
mod Limits
mod Bodies
mod Nodes
mod Stores
mod Starts
mod Rows
mod Messages
mod Counters
mod Attempts
mod Access
mod Routes
mod Throttles
mod Streams
mod Logs
mod Clients
mod Settings
mod Tables
mod Workers
mod Admins
