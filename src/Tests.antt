-- ===== src/Tests.antt =====
-- Runs of the modelled code on concrete inputs, and the theorems applied to them.
mod Buffer
mod Pipeline
mod Objects
mod Wire
mod Network
mod Client
mod Restart
mod Isolation
mod Arrival
mod Transfer
mod FileStream
mod Command
mod Process
