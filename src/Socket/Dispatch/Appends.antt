-- ===== src/Socket/Dispatch/Appends.antt =====
-- What is sent on the sockets of clients that stay the same.
use compute_web_app.Prelude.{
  ℕ, zero, suc, ◌+◌, ◌≤◌, ◌≡◌, refl, ap, ◌∙◌, List, [], ◌∷◌, ◌++◌, some, length, get_elem?, arith,
  ◌==◌, if◌then◌else◌, ne→==, ==_iff,
}
use compute_web_app.Socket.{Socket}
use compute_web_app.Socket.Server.{client_ids}
use compute_web_app.Socket.Server.Registration.{Rise}
use compute_web_app.Socket.Dispatch.{update_socket}

abbrev pub Clients : Type 0
Clients = List (ℕ × Socket)

-- The clients are the same, and `f j` was done to the socket of the client at position j.
abbrev pub Applies : (ℕ → Socket → Socket) → ℕ → Clients → Clients → Type 0
Applies f j [] [] = Unit {0}
Applies f j [] (c ∷ cs') = ⊥
Applies f j (c ∷ cs) [] = ⊥
Applies f j ((a, s) ∷ cs) ((a', s') ∷ cs') = (a' ≡ a) × (s' ≡ f j s) × Applies f (suc j) cs cs'

-- The clients are the same, and the client at position j has been sent `g j` more.
abbrev pub Appends : (ℕ → List ℕ) → ℕ → Clients → Clients → Type 0
Appends g j [] [] = Unit {0}
Appends g j [] (c ∷ cs') = ⊥
Appends g j (c ∷ cs) [] = ⊥
Appends g j ((a, s) ∷ cs) ((a', s') ∷ cs') =
    (a' ≡ a) × (s'.bytes ≡ s.bytes ++ g j) × Appends g (suc j) cs cs'

pub Applies-Appends :
    (f : ℕ → Socket → Socket) (g : ℕ → List ℕ) (j : ℕ) (cs cs' : Clients)
    → ((p : ℕ) (s : Socket) → (f p s).bytes ≡ s.bytes ++ g p)
    → Applies f j cs cs'
    → Appends g j cs cs'
Applies-Appends f g j [] [] h x = tt
Applies-Appends f g j [] (c ∷ cs') h x = absurd x
Applies-Appends f g j (c ∷ cs) [] h x = absurd x
Applies-Appends f g j ((a, s) ∷ cs) ((a', s') ∷ cs') h x =
    (x.0, rw x.1 (h j s), Applies-Appends f g (suc j) cs cs' h x.2)

pub length-client_ids : (cs : Clients) → length (client_ids cs) ≡ length cs
length-client_ids [] = refl
length-client_ids ((a, s) ∷ cs) = ap suc (length-client_ids cs)

pub Applies-none :
    (f : ℕ → Socket → Socket) (j : ℕ) (cs : Clients)
    → ((p : ℕ) (s : Socket) → j ≤ p → f p s ≡ s)
    → Applies f j cs cs
Applies-none f j [] h = tt
Applies-none f j ((a, s) ∷ cs) h =
    (refl, rw (h j s (omega arith)) refl, Applies-none f (suc j) cs (λ p s k. h p s (omega arith)))

pub Applies-trans :
    (g h f : ℕ → Socket → Socket) (j : ℕ) (cs ds es : Clients)
    → ((p : ℕ) (s : Socket) → f p s ≡ h p (g p s))
    → Applies g j cs ds
    → Applies h j ds es
    → Applies f j cs es
Applies-trans g h f j [] [] [] eq x y = tt
Applies-trans g h f j [] [] (e ∷ es) eq x y = absurd y
Applies-trans g h f j [] (d ∷ ds) es eq x y = absurd x
Applies-trans g h f j (c ∷ cs) [] es eq x y = absurd x
Applies-trans g h f j (c ∷ cs) (d ∷ ds) [] eq x y = absurd y
Applies-trans g h f j ((a, s) ∷ cs) ((b, t) ∷ ds) ((c, u) ∷ es) eq x y =
    (y.0 ∙ x.0, rw (eq j s, y.1, x.1) refl, Applies-trans g h f (suc j) cs ds es eq x.2 y.2)

pub client_ids-Applies :
    (f : ℕ → Socket → Socket) (j : ℕ) (cs ds : Clients)
    → Applies f j cs ds
    → client_ids ds ≡ client_ids cs
client_ids-Applies f j [] [] x = refl
client_ids-Applies f j [] (d ∷ ds) x = absurd x
client_ids-Applies f j (c ∷ cs) [] x = absurd x
client_ids-Applies f j ((a, s) ∷ cs) ((b, t) ∷ ds) x =
    rw (x.0, client_ids-Applies f (suc j) cs ds x.2) refl

-- `f` at position p alone.
abbrev pub only : ℕ → (Socket → Socket) → ℕ → Socket → Socket
only p f j s = if p == j then f s else s

Rise-get : (lo hi : ℕ) (ks : List ℕ) (p k : ℕ) → Rise lo hi ks → get_elem? ks p ≡ some k → lo ≤ k
Rise-get lo hi [] p k r e = cc
Rise-get lo hi (x ∷ ks) zero k r e = let same : x ≡ k = cc in omega arith
Rise-get lo hi (x ∷ ks) (suc p) k r e = omega (arith, Rise-get (suc x) hi ks p k r.2 e)

pub update_socket-Applies :
    (f g : Socket → Socket) (lo hi j p q k : ℕ) (cs : Clients)
    → ((s : Socket) → f s ≡ g s)
    → Rise lo hi (client_ids cs)
    → get_elem? (client_ids cs) p ≡ some k
    → q ≡ j + p
    → Applies (only q g) j cs (update_socket k f cs)
unfolding update_socket
update_socket-Applies f g lo hi j p q k [] h r e at = cc
update_socket-Applies f g lo hi j zero q k ((a, s) ∷ cs) h r e at =
    let same : a ≡ k = cc in
    rw ((==_iff a k).1 same) (
      refl,
      rw ((==_iff q j).1 (omega arith)) (h s),
      Applies-none (only q g) (suc j) cs (λ m s above. rw (ne→== q m (omega arith)) refl),
    )
update_socket-Applies f g lo hi j (suc p) q k ((a, s) ∷ cs) h r e at =
    rw (ne→== a k (omega (arith, Rise-get (suc a) hi (client_ids cs) p k r.2 e))) (
      refl,
      rw (ne→== q j (omega arith)) refl,
      update_socket-Applies f g (suc a) hi (suc j) p q k cs h r.2 e (omega arith),
    )
