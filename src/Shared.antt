-- ===== src/Shared.antt =====
-- frontend/shared: the services that every feature uses. The event stream in three parts: its
-- blocks (Bloco), their separation (Fluxo) and the connection (Sse).
pub mod Bloco
pub mod Fluxo
pub mod Sse
pub mod Formatters
pub mod Ambiente
pub mod Dialogo
pub mod Conexao
pub mod Vista
