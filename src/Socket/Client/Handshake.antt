-- ===== src/Socket/Client/Handshake.antt =====
-- A client learns its id and its port from the server.
use compute_web_app.Prelude.Text.{Text}
