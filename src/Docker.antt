-- ===== src/Docker.antt =====
-- docker/: the events about containers. The Docker client is a library.
pub mod Events
pub mod Containers
pub mod Repository
pub mod Listener
