-- ===== src/Examples.antt =====
-- Runs of the definitions, and the theorems at concrete inputs.
mod Callbacks
mod Packets
mod Loops
mod Records
mod Servers
mod Strings
mod Polling
mod Daemons
mod Races
mod Sessions
mod Greeting
mod Programs
mod Descriptors
mod Signalling
mod Threading
mod Demonstrations
mod Testing
