-- ===== src/Cloud.antt =====
-- The tools that create and operate the virtual machine of the sync server.
pub mod Calls
pub mod Quote
pub mod Aws
pub mod Vm
pub mod Server
