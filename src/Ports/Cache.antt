-- ===== src/Ports/Cache.antt =====
-- physical_node_controller.go: allocateProxierPort and releaseProxierPort.
use kubeocean.Dict.{lookup, insert, delete, lookup-insert, lookup-delete}
use kubeocean.Ports.Probe.{
  InRange, base_port, base_port-InRange, is_used, find_port, find_port_sound, find_port_full,
}
use kubeocean.Prelude.{
  ℕ, ◌≡◌, refl, inl, inr, Bool, true, false, Option, none, some, List, [], ◌∷◌, arith, String,
  str_dec, ℕ_discrete, Option-cases, ite,
}

-- The fields allocatedPorts and nodeNameToPort.
pub record PortCache : Type 0 where
  pub allocated : List (ℕ × String)
  pub port_of : List (String × ℕ)

abbrev pub owner : PortCache → ℕ → Option String
owner s port = lookup ℕ_discrete port s.allocated

abbrev pub port : PortCache → String → Option ℕ
port s name = lookup str_dec name s.port_of

unfoldable pub record_port : PortCache → String → ℕ → PortCache
record_port s name p = record {
  allocated = insert ℕ_discrete p name s.allocated;
  port_of = insert str_dec name p s.port_of;
}

allocate_new : PortCache → String → Option ℕ → Option ℕ × PortCache
unfolding record_port
allocate_new s name none = (none, s)
allocate_new s name (some p) = (some p, record_port s name p)

-- `none` is the error "no available ports".
unfoldable pub allocate_proxier_port : PortCache → String → Option ℕ × PortCache
unfolding allocate_new
allocate_proxier_port s name = elim (port s name) [
  | some p ↦ (some p, s)
  | none ↦ allocate_new s name (find_port s.allocated (base_port name))
]

release_port : PortCache → String → Option ℕ → PortCache
release_port s name none = s
release_port s name (some p) = record {
  allocated = delete ℕ_discrete p s.allocated;
  port_of = delete str_dec name s.port_of;
}

unfoldable pub release_proxier_port : PortCache → String → PortCache
unfolding release_port
release_proxier_port s name = release_port s name (port s name)

-- The two maps are inverse to one another.
pub record Inv (s : PortCache) : Type 0 where
  pub port_owner : (p : ℕ) (name : String) → owner s p ≡ some name → port s name ≡ some p
  pub owner_port : (p : ℕ) (name : String) → port s name ≡ some p → owner s p ≡ some name

-- Two nodes never hold the same port.
pub port_injective :
    (s : PortCache) (a b : String) (p : ℕ) → Inv s → port s a ≡ some p → port s b ≡ some p → a ≡ b
port_injective s a b p i h k = cc (i.owner_port p a h, i.owner_port p b k)

unused-owner : (s : PortCache) (p : ℕ) → is_used s.allocated p ≡ false → owner s p ≡ none
unused-owner s p h = ground arith

pub record_port-Inv :
    (s : PortCache) (name : String) (p : ℕ)
    → Inv s
    → port s name ≡ none
    → owner s p ≡ none
    → Inv (record_port s name p)
unfolding record_port
record_port-Inv s name p i fresh free = record {
  port_owner = λ q other h. ground (
    arith,
    lookup-insert ℕ_discrete p q name s.allocated,
    lookup-insert str_dec name other p s.port_of,
    i.port_owner q other,
  );
  owner_port = λ q other h. ground (
    arith,
    lookup-insert ℕ_discrete p q name s.allocated,
    lookup-insert str_dec name other p s.port_of,
    i.owner_port q other,
  );
}

release_port-Inv :
    (s : PortCache) (name : String) (o : Option ℕ)
    → Inv s
    → port s name ≡ o
    → Inv (release_port s name o)
unfolding release_port
release_port-Inv s name none i h = i
release_port-Inv s name (some p) i h = record {
  port_owner = λ q other k. ground (
    arith,
    lookup-delete ℕ_discrete p q s.allocated,
    lookup-delete str_dec name other s.port_of,
    i.port_owner q other,
    i.owner_port p name,
  );
  owner_port = λ q other k. ground (
    arith,
    lookup-delete ℕ_discrete p q s.allocated,
    lookup-delete str_dec name other s.port_of,
    i.owner_port q other,
    i.port_owner q name,
    i.owner_port p name,
  );
}

-- Taking a port, for a new node or again for a known one, keeps the two maps inverse.
pub allocate-Inv : (s : PortCache) (name : String) → Inv s → Inv (allocate_proxier_port s name).1
unfolding allocate_proxier_port
allocate-Inv s name i = elim (Option-cases (port s name)) [
  | inr (p, known) ↦ rw (known, allocate_proxier_port) i
  | inl fresh ↦ elim (Option-cases (find_port s.allocated (base_port name))) [
    | inl full ↦ rw (fresh, allocate_proxier_port) (rw (full, allocate_new) i)
    | inr (p, found) ↦
        let (r, u) = find_port_sound s.allocated (base_port name) (base_port-InRange name) found in
        rw (fresh, allocate_proxier_port)
          (rw (found, allocate_new) (record_port-Inv s name p i fresh (unused-owner s p u)))
  ]
]

-- Giving a port back keeps the two maps inverse.
pub release-Inv : (s : PortCache) (name : String) → Inv s → Inv (release_proxier_port s name)
unfolding release_proxier_port
release-Inv s name i = release_port-Inv s name (port s name) i refl

-- As long as one port of the range is free, a new node gets a port of the range that nobody held;
-- from then on the node has it and the port has the node as its owner, every other node keeps what
-- it had, and every other port its owner.
pub allocate_new_node :
    (s : PortCache) (name other : String) (q held : ℕ)
    → port s name ≡ none
    → InRange q
    → is_used s.allocated q ≡ false
    → (p : ℕ) × ((allocate_proxier_port s name).0 ≡ some p)
      × InRange p
      × (owner s p ≡ none)
      × (port (allocate_proxier_port s name).1 other
          ≡ ite (str_dec name other) (some p) (port s other))
      × (owner (allocate_proxier_port s name).1 held
          ≡ ite (ℕ_discrete p held) (some name) (owner s held))
unfolding allocate_proxier_port
allocate_new_node s name other q held fresh r free =
    elim (Option-cases (find_port s.allocated (base_port name))) [
      | inl full ↦ absurd (
          clash free
            (find_port_full s.allocated (base_port name) q (base_port-InRange name) full r))
      | inr (p, found) ↦
          let (in_range, u) =
            find_port_sound s.allocated (base_port name) (base_port-InRange name) found in
          rw (fresh, allocate_proxier_port)
            (rw (found, allocate_new)
              (
                p,
                refl,
                in_range,
                unused-owner s p u,
                lookup-insert str_dec name other p s.port_of,
                lookup-insert ℕ_discrete p held name s.allocated,
              ))
    ]
  where
    clash : {b : Bool} → b ≡ false → b ≡ true → ⊥
    clash e f = cc

-- A node that has a port gets the same one again, and the cache stays as it is.
pub allocate_again :
    (s : PortCache) (name : String) {p : ℕ}
    → port s name ≡ some p
    → allocate_proxier_port s name ≡ (some p, s)
unfolding allocate_proxier_port
allocate_again s name known = rw (known, allocate_proxier_port)

-- A refused allocation leaves the cache as it is, and every port of the range is in use.
pub allocate_refused :
    (s : PortCache) (name : String) (q : ℕ)
    → (allocate_proxier_port s name).0 ≡ none
    → InRange q
    → ((allocate_proxier_port s name).1 ≡ s) × (is_used s.allocated q ≡ true)
unfolding allocate_proxier_port
allocate_refused s name q h r = elim (Option-cases (port s name)) [
  | inr (p, known) ↦ absurd (ground arith)
  | inl fresh ↦ elim (Option-cases (find_port s.allocated (base_port name))) [
    | inl full ↦ (
      ground arith,
      find_port_full s.allocated (base_port name) q (base_port-InRange name) full r,
    )
    | inr (p, found) ↦ absurd (ground arith)
  ]
]

-- Giving a node's port back frees exactly that port: no node owns it, every other port keeps its
-- owner, the node has none, and the other nodes keep theirs.
pub release_frees :
    (s : PortCache) (name other : String) (p held : ℕ)
    → port s name ≡ some p
    → (owner (release_proxier_port s name) held ≡ ite (ℕ_discrete p held) none (owner s held))
      × (port (release_proxier_port s name) other ≡ ite (str_dec name other) none (port s other))
unfolding release_proxier_port
release_frees s name other p held h =
    rw (h, release_proxier_port)
      (lookup-delete ℕ_discrete p held s.allocated, lookup-delete str_dec name other s.port_of)

pub data PortCall : Type 0 where
  allocates releases : String → PortCall

unfoldable pub step : PortCache → PortCall → PortCache
step s (allocates name) = (allocate_proxier_port s name).1
step s (releases name) = release_proxier_port s name

unfoldable pub run : PortCache → List PortCall → PortCache
run s [] = s
run s (c ∷ cs) = run (step s c) cs

step-Inv : (s : PortCache) (c : PortCall) → Inv s → Inv (step s c)
unfolding step
step-Inv s (allocates name) i = allocate-Inv s name i
step-Inv s (releases name) i = release-Inv s name i

-- After any calls from a cache whose maps are inverse, they still are.
pub run-Inv : (s : PortCache) (cs : List PortCall) → Inv s → Inv (run s cs)
unfolding run
run-Inv s [] i = i
run-Inv s (c ∷ cs) i = run-Inv (step s c) cs (step-Inv s c i)

-- So after any calls two nodes that hold a port hold different ones.
pub run_no_conflict :
    (s : PortCache) (cs : List PortCall) (a b : String) (p : ℕ)
    → Inv s
    → port (run s cs) a ≡ some p
    → port (run s cs) b ≡ some p
    → a ≡ b
run_no_conflict s cs a b p i h k = port_injective (run s cs) a b p (run-Inv s cs i) h k
