-- ===== src/WsHub.antt =====
-- cmd/main-server/ws_hub.go: the hub of the dashboard's WebSocket clients.
-- The hub's loop handles one event at a time. `AddClient` hands its client over on an unbuffered
-- channel before anyone else has it, so making a client and registering it is one event. A client
-- is a number, and its `send` channel is a queue of at most 16 messages with an open flag.
pub mod Defs
pub mod Safety
mod Tests
