-- ===== src/Tests.antt =====
-- Runs of the modelled code on concrete requests, keys, tags and clocks: where each theorem's
-- hypotheses hold.
mod Data
mod Namespaces
mod Cleanup
mod Requests
mod Timing
mod Streams
mod Keys
mod Memory
mod Archives
mod Directories
