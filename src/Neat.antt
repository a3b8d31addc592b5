-- ===== src/Neat.antt =====
-- proyecto/NEAT: the genomes that the NEAT library evolves.
pub mod Functions
pub mod Slots
pub mod Genome
pub mod Eval
pub mod Draw
pub mod Population
pub mod Table
pub mod History
pub mod Crossover
pub mod Mutation
pub mod Compatibility
pub mod Species
pub mod Reproduce
pub mod Epoch
pub mod Tokens
pub mod Load
pub mod Json
pub mod Start
mod Tests
mod Examples
mod TextTests
