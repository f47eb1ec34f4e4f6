-- ===== src/Auth.antt =====
-- src/auth.cpp: tokens, passwords and the origin of requests.
pub mod Base64
pub mod Hex
pub mod Password
pub mod Origin
pub mod Token
