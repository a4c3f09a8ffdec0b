-- ===== src/Clients/Pool.antt =====
-- The class client_pool of client_pool.hpp.
use drone_server.Chunk.Receiving.{update}
use drone_server.Clients.{Client, ClientType, drone}
use drone_server.Prelude.{
  Bool, List, Option, [], false, if◌then◌else◌, none, some, true, ℕ, ◌++◌, ◌==◌, ◌∷◌,
}
use drone_server.Prelude.Outcome.{Outcome, fault, ok}

-- `client_ids_`: what stands at a number may be a null pointer.
pub record ClientPool : Type 0 where
  pub clients : List Client
  pub drones : List Client
  pub client_ids : ℕ → Option (Option Client)

abbrev pub empty_pool : ClientPool
empty_pool = record { clients = []; drones = []; client_ids = λ id. none }

abbrev pub is_drone : ClientType → Bool
is_drone drone = true
is_drone t = false

-- `std::remove` and `erase`: pointers are compared.
unfoldable pub remove : Client → List Client → List Client
remove cp [] = []
remove cp (c ∷ cs) = let rest = remove cp cs in if c.self == cp.self then rest else c ∷ rest

unfoldable pub add : Client → ClientPool → ClientPool
add cp p = record {
  clients = p.clients ++ cp ∷ [];
  drones = if is_drone cp.type then p.drones ++ cp ∷ [] else p.drones;
  client_ids = update p.client_ids cp.id (some (some cp));
}

-- `if (client_ids_[cp->id]) client_ids_.erase(cp->id)`: the test makes an entry with a null pointer
-- where there was none.
abbrev pub erase_id :
    ℕ → (ℕ → Option (Option Client)) → Option (Option Client) → ℕ → Option (Option Client)
erase_id id ids (some (some c)) = update ids id none
erase_id id ids (some none) = ids
erase_id id ids none = update ids id (some none)

unfoldable pub del : Client → ClientPool → ClientPool
del cp p = record {
  clients = remove cp p.clients;
  drones = if is_drone cp.type then remove cp p.drones else p.drones;
  client_ids = erase_id cp.id p.client_ids (p.client_ids cp.id);
}

abbrev pub counted_entry : Option (Option Client) → ℕ
counted_entry none = 0
counted_entry (some c) = 1

unfoldable pub count_client : ℕ → ClientPool → ℕ
count_client id p = counted_entry (p.client_ids id)

-- `at` throws where there is no entry; the pointer may be null.
abbrev pub entry_of : Option (Option Client) → Outcome (Option Client)
entry_of none = fault
entry_of (some c) = ok c

unfoldable pub client : ℕ → ClientPool → Outcome (Option Client)
client id p = entry_of (p.client_ids id)
