-- ===== src/Clients/Removal.antt =====
-- `remove` of client_pool.hpp, of a client that the list has.
use drone_server.Clients.{Client}
use drone_server.Clients.Listing.{Distinct, Fresh, IsOther, find_client, only_drones}
use drone_server.Clients.Pool.{is_drone, remove}
use drone_server.Prelude.{
  Bool-cases, List, [], ap, arith, false, if_holds, if◌then◌else◌, inl, inr, none, refl, some,
  subst, sym, true, ℕ, ◌==◌, ◌∙◌, ◌∷◌, ◌≡◌, ◌≢◌, ◌⊎◌,
}

-- A client of the list is the one that is removed, or another.
unfoldable pub Matching : Client → List Client → Type 0
Matching cp [] = Unit {0}
Matching cp (c ∷ cs) = ((c ≡ cp) ⊎ IsOther cp c) × Matching cp cs

Fresh-Matching : (cp : Client) (cs : List Client) → Fresh cp cs → Matching cp cs
unfolding Matching
Fresh-Matching cp [] f = tt
Fresh-Matching cp (c ∷ cs) f = (inr f.0, Fresh-Matching cp cs f.1)

-- The rest of a list is other than its first client.
find_client-IsOther :
    (c cp : Client) (cs : List Client) → Fresh c cs → find_client cp.id cs ≡ some cp → IsOther cp c
find_client-IsOther c cp [] f e = absurd cc
find_client-IsOther c cp (d ∷ cs) f e = elim (Bool-cases (d.id == cp.id)) [
  | inl q ↦
      let same : d ≡ cp = ground (arith, q, e) in
      subst (λ x. IsOther x c) same (λ s. f.0.0 (sym s), λ s. f.0.1 (sym s))
  | inr q ↦ find_client-IsOther c cp cs f.1 (ground (arith, q, e))
]

pub Distinct-Matching :
    (cp : Client) (cs : List Client) → Distinct cs → find_client cp.id cs ≡ some cp → Matching cp cs
unfolding Matching
Distinct-Matching cp [] d e = tt
Distinct-Matching cp (c ∷ cs) d e = elim (Bool-cases (c.id == cp.id)) [
  | inl q ↦
      let same : c ≡ cp = ground (arith, q, e) in
      (inl same, subst (λ x. Matching x cs) same (Fresh-Matching c cs d.0))
  | inr q ↦
      let there : find_client cp.id cs ≡ some cp = ground (arith, q, e) in
      (inr (find_client-IsOther c cp cs d.0 there), Distinct-Matching cp cs d.1 there)
]

drone_listed :
    (c : Client) (cs : List Client)
    → is_drone c.type ≡ true
    → only_drones (c ∷ cs) ≡ c ∷ only_drones cs
drone_listed c cs e = ground (arith, e)

other_skipped :
    (c : Client) (cs : List Client)
    → is_drone c.type ≡ false
    → only_drones (c ∷ cs) ≡ only_drones cs
other_skipped c cs e = ground (arith, e)

module _ (cp : Client) where
  remove_same : (c : Client) (cs : List Client) → c ≡ cp → remove cp (c ∷ cs) ≡ remove cp cs
  unfolding remove
  remove_same c cs e = ground (arith, ap (λ x. x.self) e)

  remove_other :
      (c : Client) (cs : List Client) → c.self ≢ cp.self → remove cp (c ∷ cs) ≡ c ∷ remove cp cs
  unfolding remove
  remove_other c cs e = ground (arith, e)

  Fresh-remove : (c : Client) (cs : List Client) → Fresh c cs → Fresh c (remove cp cs)
  unfolding remove
  Fresh-remove c [] f = tt
  Fresh-remove c (d ∷ cs) f =
      if_holds (Fresh c) (d.self == cp.self) (remove cp cs) (d ∷ remove cp cs)
        (λ _. Fresh-remove c cs f.1) (λ _. (f.0, Fresh-remove c cs f.1))

  pub Distinct-remove : (cs : List Client) → Distinct cs → Distinct (remove cp cs)
  unfolding remove
  Distinct-remove [] d = tt
  Distinct-remove (c ∷ cs) d =
      if_holds Distinct (c.self == cp.self) (remove cp cs) (c ∷ remove cp cs)
        (λ _. Distinct-remove cs d.1) (λ _. (Fresh-remove c cs d.0, Distinct-remove cs d.1))

  pub find_client-remove :
      (id : ℕ) (cs : List Client)
      → Matching cp cs
      → find_client id (remove cp cs) ≡ (if cp.id == id then none else find_client id cs)
  unfolding Matching remove
  find_client-remove id [] m = ground arith
  find_client-remove id (c ∷ cs) (inl e, m) =
      ap (find_client id) (remove_same c cs e)
      ∙ find_client-remove id cs m
      ∙ ground (arith, ap (λ x. x.id) e)
  find_client-remove id (c ∷ cs) (inr o, m) =
      ap (find_client id) (remove_other c cs o.0) ∙ ground (arith, o.1, find_client-remove id cs m)

  pub only_drones-remove_drone :
      (cs : List Client)
      → Matching cp cs
      → is_drone cp.type ≡ true
      → only_drones (remove cp cs) ≡ remove cp (only_drones cs)
  unfolding Matching remove
  only_drones-remove_drone [] m d = refl
  only_drones-remove_drone (c ∷ cs) (inl e, m) d =
      let drone_too : is_drone c.type ≡ true = ap (λ x. is_drone x.type) e ∙ d in
      ap only_drones (remove_same c cs e)
      ∙ only_drones-remove_drone cs m d
      ∙ sym (remove_same c (only_drones cs) e)
      ∙ ap (remove cp) (sym (drone_listed c cs drone_too))
  only_drones-remove_drone (c ∷ cs) (inr o, m) d =
      ap only_drones (remove_other c cs o.0) ∙ (elim (Bool-cases (is_drone c.type)) [
        | inl q ↦
            drone_listed c (remove cp cs) q
            ∙ ap (◌∷◌ c) (only_drones-remove_drone cs m d)
            ∙ sym (remove_other c (only_drones cs) o.0)
            ∙ ap (remove cp) (sym (drone_listed c cs q))
        | inr q ↦
            other_skipped c (remove cp cs) q
            ∙ only_drones-remove_drone cs m d
            ∙ ap (remove cp) (sym (other_skipped c cs q))
      ])

  pub only_drones-remove_other :
      (cs : List Client)
      → Matching cp cs
      → is_drone cp.type ≡ false
      → only_drones (remove cp cs) ≡ only_drones cs
  unfolding Matching remove
  only_drones-remove_other [] m d = refl
  only_drones-remove_other (c ∷ cs) (inl e, m) d =
      let no_drone : is_drone c.type ≡ false = ap (λ x. is_drone x.type) e ∙ d in
      ap only_drones (remove_same c cs e)
      ∙ only_drones-remove_other cs m d
      ∙ sym (other_skipped c cs no_drone)
  only_drones-remove_other (c ∷ cs) (inr o, m) d =
      ap only_drones (remove_other c cs o.0) ∙ ground (arith, only_drones-remove_other cs m d)
