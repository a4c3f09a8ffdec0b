-- ===== src/Clients/Examples.antt =====
-- The client pool and client numbers on concrete input.
use drone_server.Clients.{Client, drone, operator}
use drone_server.Clients.Agreement.{IsInStep, PoolRun, PoolRun-IsInStep, joins, starts_empty}
use drone_server.Clients.Hex.{cid_from_hex-cid_to_hex, cid_to_hex, hex_value}
use drone_server.Clients.Pool.{ClientPool, add, client, count_client, del, empty_pool}
use drone_server.Clients.Strangers.{del-stranger}
use drone_server.Media.Conversion.{cid_from_hex}
use drone_server.Prelude.{Option, arith, drop, if◌then◌else◌, none, refl, some, ℕ, ◌==◌, ◌≡◌}
use drone_server.Prelude.Bytes.{Bytes}
use drone_server.Prelude.Outcome.{ok}

abbrev one_drone : Client
one_drone = record { self = 0; type = drone; id = 0xAB }

abbrev one_operator : Client
one_operator = record { self = 1; type = operator; id = 0xCD }

abbrev two_clients : ClientPool
two_clients = add one_operator (add one_drone empty_pool)

two_clients-PoolRun : PoolRun two_clients
unfolding add
two_clients-PoolRun =
    joins one_operator ((λ e. absurd (omega (arith, e)), λ e. absurd (omega (arith, e))), tt)
      (joins one_drone tt starts_empty)

PoolRun-IsInStep_example : IsInStep two_clients
PoolRun-IsInStep_example = PoolRun-IsInStep two_clients-PoolRun

del-stranger_example :
    (count_client 0xCD (del one_operator (add one_drone empty_pool)) ≡ 1)
    × (client 0xCD (del one_operator (add one_drone empty_pool)) ≡ ok none)
    × ((id : ℕ)
        → client id (del one_operator (add one_drone empty_pool))
          ≡ (if 0xCD == id then ok none else client id (add one_drone empty_pool)))
unfolding add count_client
del-stranger_example = del-stranger one_operator (add one_drone empty_pool) refl

-- `std::stoul` on what it is given here.
abbrev read_hex : Bytes → Option ℕ
read_hex s = some (hex_value (drop 2 s))

cid_from_hex-cid_to_hex_example : cid_from_hex read_hex (cid_to_hex 0x1234_ABCD) ≡ ok 0x1234_ABCD
cid_from_hex-cid_to_hex_example =
    cid_from_hex-cid_to_hex read_hex 0x1234_ABCD (λ c cs h l. refl) (omega arith)
