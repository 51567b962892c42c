-- ===== src/Env.antt =====
-- What the program calls and this repository does not hold: the go-cache library and the SDK,
-- each a record of functions of the history of the calls made on it, Karpenter's methods, and what
-- it calls of Go's own library.
pub mod Go
pub mod Conditions
pub mod GoCache
pub mod Sdk
pub mod Karpenter
