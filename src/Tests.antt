-- ===== src/Tests.antt =====
-- Runs of the code of src on concrete inputs.
mod Catalog
mod Budget
mod Decoder
mod Requests
mod Http
mod Subnets
mod Targets
mod Snapshots
