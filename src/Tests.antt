-- ===== src/Tests.antt =====
-- The listed theorems at concrete inputs, and the expectations of the Go tests of the
-- clients and of the prompt. `World` holds the inputs.
mod World
mod Advisory
mod Usecase
mod Services
mod Devices
mod Users
mod Golden
mod Sessions
mod Tables
mod Rows
mod MachineRows
mod Wiring
mod App
mod Http
mod Clients
