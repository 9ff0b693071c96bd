-- ===== src/Samples.antt =====
-- A toy cipher and a small world, on which the tests run the program.
pub mod Toy
pub mod Worlds
pub mod StoreTests
pub mod WorkerTests
pub mod ServerTests
pub mod ClientTests
pub mod NativeTests
pub mod StartTests
pub mod LifeTests
pub mod WebTests
