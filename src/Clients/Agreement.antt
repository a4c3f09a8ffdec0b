-- ===== src/Clients/Agreement.antt =====
-- That the three containers of client_pool.hpp agree.
use drone_server.Clients.{Client}
use drone_server.Clients.Listing.{
  Distinct, Distinct-snoc, Fresh, find_client, find_client-snoc, only_drones, only_drones-snoc,
}
use drone_server.Clients.Pool.{ClientPool, add, del, empty_pool, erase_id, is_drone, remove}
use drone_server.Clients.Removal.{
  Distinct-Matching, Distinct-remove, find_client-remove, only_drones-remove_drone,
  only_drones-remove_other,
}
use drone_server.Prelude.{
  Bool-cases, Option, [], ap, arith, if◌then◌else◌, inl, inr, none, refl, some, sym, ℕ, ◌++◌, ◌∙◌,
  ◌∷◌, ◌≡◌,
}

-- The entry of a number: a pointer to the client that has it.
abbrev pub entry : Option Client → Option (Option Client)
entry none = none
entry (some c) = some (some c)

-- The clients stand once each, the drones are those of them that are drones, and each number leads to
-- the client that has it.
pub record IsInStep (p : ClientPool) : Type 0 where
  pub distinct : Distinct p.clients
  pub drones_listed : p.drones ≡ only_drones p.clients
  pub found : (id : ℕ) → p.client_ids id ≡ entry (find_client id p.clients)

-- Clients join that are new to the pool, and leave that are in it.
pub data PoolRun : ClientPool → Type 0 where
  starts_empty : PoolRun empty_pool
  joins : {p : ClientPool} (cp : Client) → Fresh cp p.clients → PoolRun p → PoolRun (add cp p)
  leaves :
      {p : ClientPool} (cp : Client)
      → find_client cp.id p.clients ≡ some cp
      → PoolRun p
      → PoolRun (del cp p)

add-IsInStep :
    (cp : Client) (p : ClientPool) → Fresh cp p.clients → IsInStep p → IsInStep (add cp p)
unfolding add
add-IsInStep cp p f h = record {
  distinct = Distinct-snoc cp p.clients h.distinct f;
  drones_listed =
      ap (λ ds. if is_drone cp.type then ds ++ cp ∷ [] else ds) h.drones_listed
      ∙ sym (only_drones-snoc cp p.clients);
  found = λ id. ground (arith, h.found id) ∙ ap entry (sym (find_client-snoc id cp p.clients f));
}

del-IsInStep :
    (cp : Client) (p : ClientPool)
    → find_client cp.id p.clients ≡ some cp
    → IsInStep p
    → IsInStep (del cp p)
unfolding del
del-IsInStep cp p e h =
    let m = Distinct-Matching cp p.clients h.distinct e in
    let there : p.client_ids cp.id ≡ some (some cp) = h.found cp.id ∙ ap entry e in
    record {
      distinct = Distinct-remove cp p.clients h.distinct;
      drones_listed = elim (Bool-cases (is_drone cp.type)) [
        | inl q ↦
            rw q (ap (remove cp) h.drones_listed ∙ sym (only_drones-remove_drone cp p.clients m q))
        | inr q ↦ rw q (h.drones_listed ∙ sym (only_drones-remove_other cp p.clients m q))
      ];
      found = λ id.
          ap (λ o. erase_id cp.id p.client_ids o id) there
          ∙ ground (arith, h.found id)
          ∙ ap entry (sym (find_client-remove cp id p.clients m));
    }

-- However clients join that are new, by object and by number, and clients leave that are in the pool:
-- each stands once, `drones()` are the drones among `clients()` in their order, and a number is counted,
-- and leads to a client that is not null, just while a client that has it is in the pool.
pub PoolRun-IsInStep : {p : ClientPool} → PoolRun p → IsInStep p
PoolRun-IsInStep starts_empty = record { distinct = tt; drones_listed = refl; found = λ id. refl }
PoolRun-IsInStep (joins {p} cp f r) = add-IsInStep cp p f (PoolRun-IsInStep r)
PoolRun-IsInStep (leaves {p} cp e r) = del-IsInStep cp p e (PoolRun-IsInStep r)
