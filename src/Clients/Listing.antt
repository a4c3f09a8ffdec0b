-- ===== src/Clients/Listing.antt =====
-- What the lists of client_pool.hpp hold.
use drone_server.Clients.{Client}
use drone_server.Clients.Pool.{is_drone}
use drone_server.Prelude.{
  Bool-cases, List, Option, [], arith, if◌then◌else◌, inl, inr, none, refl, some, sym, ℕ, ◌++◌,
  ◌==◌, ◌∷◌, ◌≡◌, ◌≢◌,
}

-- Another object with another number.
abbrev pub IsOther : Client → Client → Type 0
IsOther cp c = (c.self ≢ cp.self) × (c.id ≢ cp.id)

abbrev pub Fresh : Client → List Client → Type 0
Fresh cp [] = Unit {0}
Fresh cp (c ∷ cs) = IsOther cp c × Fresh cp cs

abbrev pub Distinct : List Client → Type 0
Distinct [] = Unit {0}
Distinct (c ∷ cs) = Fresh c cs × Distinct cs

abbrev pub find_client : ℕ → List Client → Option Client
find_client id [] = none
find_client id (c ∷ cs) = if c.id == id then some c else find_client id cs

abbrev pub only_drones : List Client → List Client
only_drones [] = []
only_drones (c ∷ cs) = if is_drone c.type then c ∷ only_drones cs else only_drones cs

Fresh-snoc :
    (c cp : Client) (cs : List Client) → Fresh c cs → IsOther c cp → Fresh c (cs ++ cp ∷ [])
Fresh-snoc c cp [] f o = (o, tt)
Fresh-snoc c cp (d ∷ cs) f o = (f.0, Fresh-snoc c cp cs f.1 o)

pub Distinct-snoc :
    (cp : Client) (cs : List Client) → Distinct cs → Fresh cp cs → Distinct (cs ++ cp ∷ [])
Distinct-snoc cp [] d f = (tt, tt)
Distinct-snoc cp (c ∷ cs) d f =
    (Fresh-snoc c cp cs d.0 (λ e. f.0.0 (sym e), λ e. f.0.1 (sym e)), Distinct-snoc cp cs d.1 f.1)

pub only_drones-snoc :
    (cp : Client) (cs : List Client)
    → only_drones (cs ++ cp ∷ [])
      ≡ (if is_drone cp.type then only_drones cs ++ cp ∷ [] else only_drones cs)
only_drones-snoc cp [] = refl
only_drones-snoc cp (c ∷ cs) = elim (Bool-cases (is_drone c.type)) [
  | inl e ↦ ground (arith, e, only_drones-snoc cp cs)
  | inr e ↦ ground (arith, e, only_drones-snoc cp cs)
]

pub find_client-snoc :
    (id : ℕ) (cp : Client) (cs : List Client)
    → Fresh cp cs
    → find_client id (cs ++ cp ∷ []) ≡ (if cp.id == id then some cp else find_client id cs)
find_client-snoc id cp [] f = refl
find_client-snoc id cp (c ∷ cs) f = ground (arith, f.0.1, find_client-snoc id cp cs f.1)
