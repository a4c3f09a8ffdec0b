-- ===== src/Clients/Strangers.antt =====
-- A client that client_pool.hpp removes without having it, as WebsocketServer::on_close does with one
-- that never said hello.
use drone_server.Clients.{Client}
use drone_server.Clients.Pool.{ClientPool, client, count_client, counted_entry, del}
use drone_server.Prelude.{Option-cases, ap, arith, if◌then◌else◌, inl, inr, none, ℕ, ◌==◌, ◌≡◌}
use drone_server.Prelude.Outcome.{ok}

-- Removing a client whose number is free leaves the number taken: `count` answers 1 for it from then
-- on, and `client` gives a null pointer. What the pool says of every other number stays.
pub del-stranger :
    (cp : Client) (p : ClientPool)
    → count_client cp.id p ≡ 0
    → (count_client cp.id (del cp p) ≡ 1)
      × (client cp.id (del cp p) ≡ ok none)
      × ((id : ℕ) → client id (del cp p) ≡ (if cp.id == id then ok none else client id p))
unfolding count_client del client
del-stranger cp p h = elim (Option-cases (p.client_ids cp.id)) [
  | inl e ↦ rw (e, count_client, del, client) (ground arith, ground arith, λ id. ground arith)
  | inr (c, e) ↦ absurd (cc (h, ap counted_entry e))
]
