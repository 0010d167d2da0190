-- ===== src/Socket/Server/Registration.antt =====
-- Client ids are unique, and the map of clients is in their order.
use compute_web_app.Prelude.{
  ℕ, suc, ◌+◌, ◌%◌, ◌≤◌, ◌<◌, ◌≡◌, refl, ap, List, [], ◌∷◌, ◌++◌, Option, none, some, if◌then◌else◌,
  arith, Bool-cases, inl, inr,
}
use compute_web_app.Prelude.Words.{u32_mod}
use compute_web_app.Socket.Server.{
  SocketServer, accept, call_back, insert_socket, erase_socket, client_ids,
}

-- Ids that rise along the list and lie in a range.
abbrev pub Rise : ℕ → ℕ → List ℕ → Type 0
Rise lo hi [] = Unit {0}
Rise lo hi (k ∷ ks) = (lo ≤ k) × (k < hi) × Rise (suc k) hi ks

abbrev pub IsValid : {V : Type 0} → SocketServer V → Type 0
IsValid server =
    Rise 0 server.next_client_id (client_ids server.client_sockets)
    × (server.next_client_id < u32_mod)

Rise-mono : (lo hi hi' : ℕ) (ks : List ℕ) → hi ≤ hi' → Rise lo hi ks → Rise lo hi' ks
Rise-mono lo hi hi' [] h r = tt
Rise-mono lo hi hi' (k ∷ ks) h r = (r.0, omega arith, Rise-mono (suc k) hi hi' ks h r.2)

Rise-lower : (lo lo' hi : ℕ) (ks : List ℕ) → lo' ≤ lo → Rise lo hi ks → Rise lo' hi ks
Rise-lower lo lo' hi [] h r = tt
Rise-lower lo lo' hi (k ∷ ks) h r = (omega arith, r.1, r.2)

module _ {V : Type 0} where
  insert-last :
      (lo k : ℕ) (v : V) (sockets : List (ℕ × V))
      → Rise lo k (client_ids sockets)
      → insert_socket k v sockets ≡ sockets ++ (k, v) ∷ []
  unfolding insert_socket
  insert-last lo k v [] h = refl
  insert-last lo k v ((j, w) ∷ rest) h = ground (arith, insert-last (suc j) k v rest h.2)

  client_ids-append :
      (sockets : List (ℕ × V)) (k : ℕ) (v : V)
      → client_ids (sockets ++ (k, v) ∷ []) ≡ client_ids sockets ++ k ∷ []
  client_ids-append [] k v = refl
  client_ids-append ((j, w) ∷ rest) k v = ap (◌∷◌ j) (client_ids-append rest k v)

  Rise-last :
      (lo k : ℕ) (v : V) (sockets : List (ℕ × V))
      → lo ≤ k
      → Rise lo k (client_ids sockets)
      → Rise lo (suc k) (client_ids (sockets ++ (k, v) ∷ []))
  Rise-last lo k v [] h r = (h, omega arith, tt)
  Rise-last lo k v ((j, w) ∷ rest) h r =
      (r.0, omega arith, Rise-last (suc j) k v rest (omega arith) r.2)

  pub Rise-erase :
      (lo hi k : ℕ) (sockets : List (ℕ × V))
      → Rise lo hi (client_ids sockets)
      → Rise lo hi (client_ids (erase_socket k sockets))
  unfolding erase_socket
  Rise-erase lo hi k [] r = tt
  Rise-erase lo hi k ((j, w) ∷ rest) r =
      ground (arith, Rise-erase (suc j) hi k rest r.2, Rise-lower (suc j) lo hi (client_ids rest))

  -- The callback acts on the socket, if there is one.
  abbrev pub called : Option (V → V) → V → V
  called none socket = socket
  called (some f) socket = f socket

  -- As long as the 32-bit counter does not wrap, an accepted client gets an id above those of all
  -- earlier ones; its socket is what the callback makes of the accepted one, if a callback is set. While
  -- clients are registered the map gains this id with this socket, behind the others, and afterwards it
  -- stays as it was.
  pub accept-IsValid :
      (callback : Option (V → V)) (server : SocketServer V) (socket : V)
      → IsValid server
      → server.next_client_id + 1 < u32_mod
      → let (id, socket', after) = accept callback server socket in
        IsValid after
        × (after.client_sockets ≡ (
            if server.stop_registering
            then server.client_sockets
            else server.client_sockets ++ (id, socket') ∷ []))
        × (socket' ≡ called callback socket)
        × (after.stop_registering ≡ server.stop_registering)
        × (id ≡ server.next_client_id)
        × (after.next_client_id ≡ server.next_client_id + 1)
  unfolding accept
  accept-IsValid callback server socket v h =
      let next = server.next_client_id in
      let sockets = server.client_sockets in
      let wrap : (next + 1) % u32_mod ≡ suc next = omega arith in
      let one : suc next ≡ next + 1 = omega arith in
      elim (Bool-cases server.stop_registering) [
        | inl stopped ↦
            rw (stopped, wrap)
              (
                (Rise-mono 0 next (suc next) (client_ids sockets) (omega arith) v.0, omega arith),
                refl,
                same callback,
                refl,
                refl,
                one,
              )
        | inr running ↦
            rw (running, wrap, insert-last 0 next _ sockets v.0)
              (
                (Rise-last 0 next _ sockets (omega arith) v.0, omega arith),
                refl,
                same callback,
                refl,
                refl,
                one,
              )
      ]
    where
      same : (c : Option (V → V)) → call_back c socket ≡ called c socket
      same none = refl
      same (some f) = refl
