-- ===== src/Fcgi.antt =====
-- sl_fcgi.c: the FastCGI record parser.
pub mod Parser
pub mod Request
pub mod Response
