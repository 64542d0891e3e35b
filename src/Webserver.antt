-- ===== src/Webserver.antt =====
-- webserver/: the handlers, from what the getters return to what is sent. The router, the HTTP
-- library and the JSON encoder are not modelled: a handler's result is the value that it encodes.
pub mod Host
pub mod Containers
pub mod Controller
mod Examples
