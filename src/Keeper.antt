-- ===== src/Keeper.antt =====
-- devpipe/src/keeper.rs: the process that holds one terminal, what is said on its socket, and the
-- daemon's end of that socket.
pub mod Framing
pub mod Messages
pub mod Sockets
pub mod Run
pub mod Serving
pub mod Link
