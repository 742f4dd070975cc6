-- ===== src/Instruct.antt =====
-- src/controller.cpp, src/model.cpp: the instructions of the command line.
pub mod Address
pub mod Dotted
pub mod Info
pub mod Server
pub mod Projects
pub mod Callbacks
