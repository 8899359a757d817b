-- ===== src/Tests.antt =====
-- Runs of the model on small inputs.
mod Fixtures
mod Ct
mod Compaction
mod Reduction
mod Routing
mod Stash
mod Router
mod Histogram
mod Layout
mod Sort
mod Numbers
mod Resize
mod Oram
mod Shards
mod Totals
