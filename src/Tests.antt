-- ===== src/Tests.antt =====
-- Concrete runs of the model: tests of the definitions, and examples at which the theorems'
-- conditions hold.
mod Codes
mod Filters
mod Access
mod Installing
mod Scheduled
mod Memory
mod Objects
mod Contexts
mod Monitored
mod Clients
mod Servers
mod Handles
mod Nodes
mod Attributes
mod Builders
mod Spans
mod Masks
mod Ranges
mod Tables
mod Requests
mod Completions
