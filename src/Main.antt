-- ===== src/Main.antt =====
-- main.c: the answer to a request, the loop that feeds a parser, and a connection.
pub mod Reply
pub mod Records
pub mod Execute
pub mod Loop
pub mod Connection
pub mod ProcessName
pub mod Events
