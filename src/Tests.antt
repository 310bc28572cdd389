-- ===== src/Tests.antt =====
-- Concrete parameters, and each theorem applied to concrete inputs.
mod Params
mod Examples
mod Objects
mod Machine
mod Processor
mod Tables
mod Starts
mod Live
