-- ===== src/Binding.antt =====
-- What the binding gives to JavaScript: the methods that the `Init` functions register, and how a
-- `NewInstance` hands its arguments to the `New` of its class.
pub mod Methods
pub mod Instances
