-- ===== src/Tests.antt =====
-- The theorems at concrete inputs, by component.
mod Archives
mod Blocks
mod Clocks
mod Devices
mod Texts
mod Ports
mod Processes
mod Pages
mod Tables
mod Formats
mod Nodes
mod Calls
mod Regions
mod Vectors
mod Threads
mod Output
mod Mounted
mod Programs
mod Tokens
