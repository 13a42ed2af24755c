-- ===== src/Kube.antt =====
-- The API server as a controller sees it: the requests that the handlers make and handlers as
-- programs of requests, the laws of a server, what a handler may delete, and many handlers over
-- one server.
pub mod Request
pub mod Server
pub mod Cautious
pub mod System
pub mod Moves
pub mod Exclusive
pub mod Lifecycle
pub mod Single
