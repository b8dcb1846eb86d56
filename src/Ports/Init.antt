-- ===== src/Ports/Init.antt =====
-- physical_node_controller.go: InitAllocatedPortsCache. `atoi` is strconv.Atoi, on labels that
-- write no negative number. A node is its name with its proxier-port label, if it has one.
use kubeocean.Dict.{lookup, lookup-insert}
use kubeocean.Ports.Cache.{PortCache, owner, port, Inv, record_port, record_port-Inv}
use kubeocean.Prelude.{
  ℕ, ◌≡◌, ◌≢◌, refl, Bool, false, is_yes, Option, none, some, List, [], ◌∷◌, arith, String, str_dec,
  ℕ_discrete, All,
}

none_ne {ℓ} : {A : Type ℓ} {a : A} → none ≡ some a → ⊥
none_ne e = cc

module _ (atoi : String → Option ℕ) where
  init_node : PortCache → String → Option String → PortCache
  init_node s name none = s
  init_node s name (some label) = elim (atoi label) [ none ↦ s | some p ↦ record_port s name p ]

  init_from : PortCache → List (String × Option String) → PortCache
  unfolding init_node
  init_from s [] = s
  init_from s ((name, label) ∷ nodes) = init_from (init_node s name label) nodes

  pub init_allocated_ports_cache : List (String × Option String) → PortCache
  unfolding init_from
  init_allocated_ports_cache nodes = init_from (record { allocated = []; port_of = [] }) nodes

  abbrev pub parsed : Option String → Option ℕ
  parsed none = none
  parsed (some label) = atoi label

  abbrev same_port : Option ℕ → Option ℕ → Bool
  same_port none _ = false
  same_port (some p) none = false
  same_port (some p) (some q) = is_yes (ℕ_discrete p q)

  -- Two nodes with different names, and with different ports where both have one.
  abbrev Apart : String × Option String → String × Option String → Type 0
  Apart a b = (a.0 ≢ b.0) × (same_port (parsed a.1) (parsed b.1) ≡ false)

  abbrev pub Distinct : List (String × Option String) → Type 0
  Distinct [] = Unit
  Distinct (n ∷ nodes) = All (Apart n) nodes × Distinct nodes

  abbrev Unowned : PortCache → Option ℕ → Type 0
  Unowned s none = Unit
  Unowned s (some p) = owner s p ≡ none

  abbrev Clear : PortCache → String × Option String → Type 0
  Clear s n = (port s n.0 ≡ none) × Unowned s (parsed n.1)

  init_node-Inv :
      (s : PortCache) (name : String) (label : Option String)
      → Inv s
      → Clear s (name, label)
      → Inv (init_node s name label)
  unfolding init_node
  init_node-Inv s name none i c = i
  init_node-Inv s name (some label) i c = by_port (atoi label) refl
    where
      by_port : (o : Option ℕ) → atoi label ≡ o → Inv (init_node s name (some label))
      by_port none e = rw (e, init_node) i
      by_port (some p) e = rw (e, init_node) (record_port-Inv s name p i c.0 (rw e at c.1))

  record_port-Clear :
      (s : PortCache) (name other : String) (p : ℕ) (o : Option ℕ)
      → name ≢ other
      → same_port (some p) o ≡ false
      → port s other ≡ none
      → Unowned s o
      → (port (record_port s name p) other ≡ none) × Unowned (record_port s name p) o
  unfolding record_port
  record_port-Clear s name other p none d e f u =
      (ground (arith, lookup-insert str_dec name other p s.port_of), tt)
  record_port-Clear s name other p (some q) d e f u = (
    ground (arith, lookup-insert str_dec name other p s.port_of),
    ground (arith, lookup-insert ℕ_discrete p q name s.allocated),
  )

  init_node-Clear :
      (s : PortCache) (name : String) (label : Option String) (b : String × Option String)
      → Apart (name, label) b
      → Clear s b
      → Clear (init_node s name label) b
  unfolding init_node
  init_node-Clear s name none b a c = c
  init_node-Clear s name (some label) b a c = by_port (atoi label) refl
    where
      by_port : (o : Option ℕ) → atoi label ≡ o → Clear (init_node s name (some label)) b
      by_port none e = rw (e, init_node) c
      by_port (some p) e =
          rw (e, init_node) (record_port-Clear s name b.0 p (parsed b.1) a.0 (rw e at a.1) c.0 c.1)

  init_node-Clears :
      (s : PortCache) (name : String) (label : Option String)
      (nodes : List (String × Option String))
      → All (Apart (name, label)) nodes
      → All (Clear s) nodes
      → All (Clear (init_node s name label)) nodes
  init_node-Clears s name label [] a c = tt
  init_node-Clears s name label (n ∷ nodes) a c =
      (init_node-Clear s name label n a.0 c.0, init_node-Clears s name label nodes a.1 c.1)

  init_from-Inv :
      (s : PortCache) (nodes : List (String × Option String))
      → Inv s
      → All (Clear s) nodes
      → Distinct nodes
      → Inv (init_from s nodes)
  unfolding init_from
  init_from-Inv s [] i c d = i
  init_from-Inv s ((name, label) ∷ nodes) i c d =
      init_from-Inv (init_node s name label) nodes (init_node-Inv s name label i c.0)
        (init_node-Clears s name label nodes d.0 c.1) d.1

  empty-Clear :
      (nodes : List (String × Option String))
      → All (Clear (record { allocated = []; port_of = [] })) nodes
  unfolding lookup
  empty-Clear [] = tt
  empty-Clear (n ∷ nodes) = ((refl, unowned (parsed n.1)), empty-Clear nodes)
    where
      unowned : (o : Option ℕ) → Unowned (record { allocated = []; port_of = [] }) o
      unowned none = tt
      unowned (some p) = refl

  -- The cache that is read from the nodes' labels has inverse maps, where the nodes have different
  -- names and no two labels write the same port.
  pub init-Inv :
      (nodes : List (String × Option String))
      → Distinct nodes
      → Inv (init_allocated_ports_cache nodes)
  unfolding init_allocated_ports_cache lookup
  init-Inv nodes d =
      init_from-Inv (record { allocated = []; port_of = [] }) nodes
        (record {
          port_owner = λ p name h. absurd (none_ne h);
          owner_port = λ p name h. absurd (none_ne h);
        })
        (empty-Clear nodes) d
