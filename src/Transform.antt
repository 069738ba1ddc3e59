-- ===== src/Transform.antt =====
-- src/transform.h and src/transform.c: the prologue and the epilogues of a function, and their
-- permutation. `Dr` and `Chains` are the libraries that the code calls, `Store` the memory that it
-- asks for; `Sets` finds a run of instructions, `Mirror` tests it, `Add` records a function,
-- `Encode` and `Permute` write the permuted code, and the modules below them prove.
pub mod Dr
pub mod Chains
pub mod Store
pub mod Sets
pub mod Code
pub mod Data
pub mod Held
pub mod Mirror
pub mod Add
pub mod Encode
pub mod Permute
pub mod Life
pub mod Sample
mod Tests
