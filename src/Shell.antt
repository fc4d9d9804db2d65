-- ===== src/Shell.antt =====
-- HW2/terminal.c: a shell that runs the commands of a line, joined by pipes.
pub mod Parse
pub mod Redirect
pub mod Pipes
pub mod Child
pub mod Wait
pub mod Line
mod Tests
