-- ===== src/Tests/Clients.antt =====
-- The theorems on URLs and on registration over a socket at concrete inputs.
use compute_web_app.Prelude.{ℕ, ◌≡◌, refl, some, arith}
use compute_web_app.Prelude.Text.{Text}
use compute_web_app.Outcome.{ok}
use compute_web_app.Socket.Url.{get_info, client_endpoint, server_endpoint}
use compute_web_app.Socket.Url.Endpoint.{dotted_text, client_endpoint-get_info}

-- A socket library that knows one address.
abbrev loopback : Text
loopback = dotted_text 127 0 0 1

client_endpoint-get_info_example :
    (client_endpoint {A = ℕ} (λ _. some 0) 1 (get_info {A = ℕ} (λ _. loopback) (0, 65535))
      ≡ ok (0, 65535))
    × (server_endpoint {A = ℕ} (λ _. some 0) 1 (get_info {A = ℕ} (λ _. loopback) (0, 65535))
        ≡ ok (0, 65535))
client_endpoint-get_info_example =
    client_endpoint-get_info {A = ℕ} (λ _. some 0) 1 (λ _. loopback) 0 127 0 0 1 65535 refl refl
      (omega arith) (omega arith) (omega arith) (omega arith) (omega arith)
