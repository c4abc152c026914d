-- ===== src/Clients.antt =====
-- pkg: the thin wrappers of the clients of the backends.
pub mod Postgresclient
pub mod Miniclient
