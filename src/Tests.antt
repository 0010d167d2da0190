-- ===== src/Tests.antt =====
-- The theorems at concrete inputs, and runs of the definitions.
mod Fixtures
mod Datasets
mod Suppliers
mod Sockets
mod Clients
mod Aggregators
mod Processes
mod Benchmarks
mod Products
mod Registrations
mod Documents
mod Exchanges
mod Rings
