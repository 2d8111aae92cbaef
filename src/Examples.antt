-- ===== src/Examples.antt =====
-- Concrete instances of the parameters, and the theorems at concrete data.
mod Instances
mod Data
mod Encryptors
mod Sessions
mod Parts
mod Flows
mod Texts
mod Natives
