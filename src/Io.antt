-- ===== src/Io.antt =====
-- A connection's input and output: connReader, the pools of buffers and checkConnErrorWriter of
-- stratum/server/server.go, and readMessage, Close and finalFlush of stratum/server/conn.go.
pub mod Reader
pub mod Buffers
pub mod Conn
mod Tests
