-- ===== src/Witnesses.antt =====
-- The theorems at concrete inputs, and tests of the definitions.
mod Builders
mod Toy
mod Addresses
mod Wires
mod Mocks
mod Loops
mod Actors
mod FirstMocks
mod Pipes
mod FirstLoops
mod Demos
mod Sessions
mod Halls
mod Journeys
mod FirstNetworks
