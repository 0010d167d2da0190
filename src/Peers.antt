-- ===== src/Peers.antt =====
-- data/dataset_supplier.cpp, data/dataset_aggregator.cpp, data/data_supplier.cpp and
-- data/data_aggregator.cpp: the ids of suppliers and aggregators. Each of the four classes has its own
-- counter, and objects of a class are made one after the other.
use compute_web_app.Prelude.{
  ℕ, zero, suc, ◌+◌, ◌≤◌, ◌≡◌, refl, ap, ◌∙◌, List, [], ◌∷◌, map, arith, ltb, lt→ltb, if◌then◌else◌,
  range_from,
}
use compute_web_app.Outcome.{Outcome, ok, fault, ◌>>=◌}
use compute_web_app.Process.Variant.{ℤ, pos}

abbrev pub int_max : ℕ
int_max = 2147483647

pub record Peer : Type 0 where
  pub id : ℕ
  pub total_buffers : ℕ
  pub timeout_ms : ℤ

-- The constructor, with the class's `next_id`, which is an `int`: counting it above its maximum is
-- undefined behaviour.
unfoldable pub new_peer : ℕ → Outcome (Peer × ℕ)
new_peer next_id =
    if ltb next_id int_max
    then ok (record { id = next_id; total_buffers = 0; timeout_ms = pos 5000 }, next_id + 1)
    else fault

unfoldable pub set_timeout : Peer → ℤ → Peer
set_timeout peer timeout_ms = record peer { timeout_ms = timeout_ms }

unfoldable pub get_timeout : Peer → ℤ
get_timeout peer = peer.timeout_ms

unfoldable pub get_id : Peer → ℕ
get_id peer = peer.id

-- n objects, one after the other.
abbrev pub new_peers : ℕ → ℕ → Outcome (List Peer × ℕ)
new_peers zero next_id = ok ([], next_id)
new_peers (suc n) next_id = do
  (peer, next_id') ← new_peer next_id
  (peers, last) ← new_peers n next_id'
  ok (peer ∷ peers, last)

-- As long as the counter does not reach the largest `int`, objects get the next ids, one each.
pub new_peers-ids :
    (n next_id : ℕ)
    → next_id + n ≤ int_max
    → (peers : List Peer) × (new_peers n next_id ≡ ok (peers, next_id + n))
      × (map get_id peers ≡ range_from next_id n)
unfolding new_peer get_id
new_peers-ids zero next_id h =
    let same : next_id ≡ next_id + 0 = omega arith in ([], ap (λ n. ok ([], n)) same, refl)
new_peers-ids (suc n) next_id h =
    let (peers, made, ids) = new_peers-ids n (next_id + 1) (omega arith) in
    let same : next_id + 1 + n ≡ next_id + suc n = omega arith in
    let up : next_id + 1 ≡ suc next_id = omega arith in
    let peer : Peer = record { id = next_id; total_buffers = 0; timeout_ms = pos 5000 } in
    (
      peer ∷ peers,
      rw (lt→ltb next_id int_max (omega arith), made) (ap (λ n. ok (peer ∷ peers, n)) same),
      ap (◌∷◌ next_id) (ids ∙ ap (λ i. range_from i n) up),
    )
