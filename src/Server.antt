-- ===== src/Server.antt =====
-- The server, src/server.cpp: how its threads start and stop it (children Lifecycle, Shutdown and Termination).
pub mod Handles
pub mod Lifecycle
pub mod Shutdown
pub mod Termination
