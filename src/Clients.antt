-- ===== src/Clients.antt =====
-- src/core/src/DDS/core/client_pool.hpp and client.hpp: the clients that have said hello, by number.
pub mod Pool
pub mod Listing
pub mod Removal
pub mod Agreement
pub mod Strangers
pub mod Hex
mod Examples
use drone_server.Prelude.{ℕ}

-- enum class Type
pub data ClientType : Type 0 where
  invalid drone operator : ClientType

-- A client; `self` is the object that a `shared_ptr` points to.
pub record Client : Type 0 where
  pub self : ℕ
  pub type : ClientType
  pub id : ℕ
