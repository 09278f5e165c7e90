-- ===== src/Ais/Cache/Bounds.antt =====
-- The bound of `MmsiCache` in rust/connectors/ais-nmea/src/ais/cache.rs.
use ajar_connectors.Prelude.{
  ℕ, suc, ◌≤◌, ◌≡◌, refl, sym, ap, ◌∙◌, inl, inr, true, false, Bool-cases, none, some, Option-cases,
  List, [], ◌∷◌, ◌++◌, length, length-append, unwrap_or, get_elem?, drop, ==_iff, contains, is_some,
  leb, ◌==◌, arith, if◌then◌else◌,
}
use ajar_connectors.Ais.Cache.{MmsiCache, max_vessels, lookup, remove, get, evict, entry}

unfoldable pub Distinct : List ℕ → Type 0
Distinct [] = Unit
Distinct (x ∷ xs) = (contains x xs ≡ false) × Distinct xs

module _ {V : Type 0} where
  unfoldable pub keys : List (ℕ × V) → List ℕ
  keys [] = []
  keys ((k, v) ∷ rest) = k ∷ keys rest

  -- The order lists the vessels of the map, each once, and they are at most as many as the bound.
  pub record IsBounded (c : MmsiCache V) : Type 0 where
    pub ordered : keys c.map ≡ c.order
    pub distinct : Distinct c.order
    pub bounded : length c.order ≤ max_vessels

  keys-append : (a b : List (ℕ × V)) → keys (a ++ b) ≡ keys a ++ keys b
  unfolding keys
  keys-append [] b = refl
  keys-append (x ∷ xs) b = ap (◌∷◌ x.0) (keys-append xs b)

  contains-keys : (k : ℕ) (m : List (ℕ × V)) → contains k (keys m) ≡ is_some (lookup k m)
  unfolding keys contains lookup
  contains-keys k [] = refl
  contains-keys k ((n, v) ∷ rest) = ground (arith, contains-keys k rest)

  remove_absent : (k : ℕ) (m : List (ℕ × V)) → contains k (keys m) ≡ false → remove k m ≡ m
  unfolding keys contains remove
  remove_absent k [] h = refl
  remove_absent k ((n, v) ∷ rest) h = ground (arith, remove_absent k rest)

  lookup-append : (k : ℕ) (a b : List (ℕ × V)) → lookup k a ≡ none → lookup k (a ++ b) ≡ lookup k b
  unfolding lookup
  lookup-append k [] b h = refl
  lookup-append k ((n, v) ∷ a) b h = ground (arith, lookup-append k a b)

contains-snoc :
    (x k : ℕ) (xs : List ℕ)
    → contains x xs ≡ false
    → (k == x) ≡ false
    → contains x (xs ++ (k ∷ [])) ≡ false
unfolding contains
contains-snoc x k [] h n = ground arith
contains-snoc x k (y ∷ ys) h n = ground (arith, contains-snoc x k ys)

Distinct-snoc :
    (xs : List ℕ) (k : ℕ) → Distinct xs → contains k xs ≡ false → Distinct (xs ++ (k ∷ []))
unfolding Distinct contains
Distinct-snoc [] k d h = (refl, tt)
Distinct-snoc (x ∷ xs) k d h =
    (contains-snoc x k xs d.0 (ground arith), Distinct-snoc xs k d.1 (ground arith))

module _ {V : Type 0} where
  pub record HasRoom (k : ℕ) (c : MmsiCache V) : Type 0 where
    pub ordered : keys c.map ≡ c.order
    pub distinct : Distinct c.order
    pub room : suc (length c.order) ≤ max_vessels
    pub absent : lookup k c.map ≡ none

  added : (k : ℕ) (v : V) → MmsiCache V → MmsiCache V
  added k v c = record { map = c.map ++ ((k, v) ∷ []); order = c.order ++ (k ∷ []) }

  IsBounded-added : (k : ℕ) (v : V) (c : MmsiCache V) → HasRoom k c → IsBounded (added k v c)
  unfolding keys added
  IsBounded-added k v c h = record {
    ordered = keys-append c.map ((k, v) ∷ []) ∙ ap (λ (o : List ℕ). o ++ (k ∷ [])) h.ordered;
    distinct =
        Distinct-snoc c.order k h.distinct
          (ap (contains k) (sym h.ordered) ∙ contains-keys k c.map ∙ ap is_some h.absent);
    bounded = omega (arith, length-append c.order (k ∷ []), h.room);
  }

  get-added : (k : ℕ) (v : V) (c : MmsiCache V) → HasRoom k c → get k (added k v c) ≡ some v
  unfolding added get lookup
  get-added k v c h = rw (lookup-append k c.map ((k, v) ∷ []) h.absent) (ground arith)

  remove-first :
      (n o : ℕ) (v : V) (m : List (ℕ × V))
      → n ≡ o
      → contains o (keys m) ≡ false
      → remove o ((n, v) ∷ m) ≡ m
  unfolding remove
  remove-first n o v m e h = rw ((==_iff n o).1 e) (remove_absent o m h)

  lookup-rest :
      (k n : ℕ) (v : V) (m : List (ℕ × V)) → lookup k ((n, v) ∷ m) ≡ none → lookup k m ≡ none
  unfolding lookup
  lookup-rest k n v m h = ground arith

  -- Room is made by forgetting the vessel that came first, when the cache is full.
  HasRoom-evict :
      (k : ℕ) (m : List (ℕ × V)) (order : List ℕ)
      → IsBounded (record { map = m; order = order })
      → lookup k m ≡ none
      → leb max_vessels (length order) ≡ true
      → HasRoom k (evict (record { map = m; order = order }))
  unfolding evict keys Distinct lookup
  HasRoom-evict k m [] b absent full = absurd (ground arith)
  HasRoom-evict k [] (o ∷ os) b absent full = absurd (cc (b.ordered))
  HasRoom-evict k ((n, v) ∷ m) (o ∷ os) b absent full =
      let first : n ≡ o = ap (λ (l : List ℕ). unwrap_or (get_elem? l 0) 0) b.ordered in
      let others : keys m ≡ os = ap (drop 1) b.ordered in
      rw (remove-first n o v m first (ap (contains o) others ∙ b.distinct.0)) (record {
        ordered = others;
        distinct = b.distinct.1;
        room = omega (arith, b.bounded);
        absent = lookup-rest k n v m absent;
      })

  entry_room : (k : ℕ) → MmsiCache V → MmsiCache V
  entry_room k c = if leb max_vessels (length c.order) then evict c else c

  HasRoom-entry_room :
      (k : ℕ) (c : MmsiCache V) → IsBounded c → lookup k c.map ≡ none → HasRoom k (entry_room k c)
  unfolding entry_room
  HasRoom-entry_room k c b absent = elim (Bool-cases (leb max_vessels (length c.order))) [
    | inl full ↦ rw full (HasRoom-evict k c.map c.order b absent full)
    | inr free ↦ rw free (record {
      ordered = b.ordered;
      distinct = b.distinct;
      room = ground arith;
      absent = absent;
    })
  ]

  -- A cache of at most 10000 vessels, listed once each in its order, stays so when a vessel is
  -- looked up for writing, and the vessel then has its value, or the default if it was not there.
  pub entry_lem :
      (default : V) (mmsi : ℕ) (c : MmsiCache V)
      → IsBounded c
      → IsBounded (entry default mmsi c)
        × (get mmsi (entry default mmsi c) ≡ some (unwrap_or (get mmsi c) default))
  unfolding entry get entry_room added
  entry_lem default mmsi c b = elim (Option-cases (lookup mmsi c.map)) [
    | inl absent ↦
        let room = HasRoom-entry_room mmsi c b absent in
        rw absent (
          IsBounded-added mmsi default (entry_room mmsi c) room,
          get-added mmsi default (entry_room mmsi c) room,
        )
    | inr (v, there) ↦ rw there (b, there)
  ]
