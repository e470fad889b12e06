-- ===== src/Tests.antt =====
-- Concrete runs of the modules.
mod Validation
mod Data
mod Runs
mod Containers
mod Rows
mod Numbers
mod Relations
mod References
mod Retired
mod Publication
mod Tables
