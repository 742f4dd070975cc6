-- ===== src/Tests.antt =====
-- Runs of the definitions on concrete inputs, and the theorems applied to them.
mod Messages
mod Parsing
mod Packets
mod Boxes
mod Services
mod Requests
mod Statements
mod Sockets
mod Posts
mod Configs
mod Clients
mod Squares
mod Projects
mod Instructions
