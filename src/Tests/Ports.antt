-- ===== src/Tests/Ports.antt =====
-- The port cache with a few nodes.
use kubeocean.Dict.{lookup}
use kubeocean.Ports.Probe.{InRange, base_port, find_port}
use kubeocean.Ports.Cache.{
  PortCache, owner, port, Inv, PortCall, allocates, releases, run, step, allocate_proxier_port,
  release_proxier_port, allocate_new_node, run_no_conflict, release_frees,
}
use kubeocean.Ports.Init.{init_allocated_ports_cache, init-Inv}
use kubeocean.Prelude.{
  ℕ, ◌≡◌, refl, ite, Option, none, some, List, [], ◌∷◌, arith, String, str_dec, ℕ_discrete, text_ne,
}

abbrev no_ports : PortCache
no_ports = record { allocated = []; port_of = [] }

no_ports-Inv : Inv no_ports
unfolding lookup
no_ports-Inv = record { port_owner = λ p n h. cc; owner_port = λ p n h. cc }

abbrev one_node : PortCache
one_node = record { allocated = (15007, "vnode-a") ∷ []; port_of = ("vnode-a", 15007) ∷ [] }

one_node-Inv : Inv one_node
unfolding lookup
one_node-Inv = record { port_owner = λ p n h. ground arith; owner_port = λ p n h. ground arith }

allocate_new_node_example :
    (p : ℕ) × ((allocate_proxier_port one_node "vnode-b").0 ≡ some p)
    × InRange p
    × (owner one_node p ≡ none)
    × (port (allocate_proxier_port one_node "vnode-b").1 "vnode-a"
        ≡ ite (str_dec "vnode-b" "vnode-a") (some p) (port one_node "vnode-a"))
    × (owner (allocate_proxier_port one_node "vnode-b").1 15007
        ≡ ite (ℕ_discrete p 15007) (some "vnode-b") (owner one_node 15007))
unfolding lookup str_dec ℕ_discrete
allocate_new_node_example =
    allocate_new_node one_node "vnode-b" "vnode-a" 15008 15007 refl (omega arith) refl

release_frees_example :
    (owner (release_proxier_port one_node "vnode-a") 15008
      ≡ ite (ℕ_discrete 15007 15008) none (owner one_node 15008))
    × (port (release_proxier_port one_node "vnode-a") "vnode-b"
        ≡ ite (str_dec "vnode-a" "vnode-b") none (port one_node "vnode-b"))
unfolding lookup str_dec
release_frees_example = release_frees one_node "vnode-a" "vnode-b" 15007 15008 refl

abbrev two_labels : List (String × Option String)
two_labels = ("vnode-a", some "15007") ∷ ("vnode-b", none) ∷ []

abbrev atoi : String → Option ℕ
atoi s = ite (str_dec s "15007") (some 15007) none

init-Inv_example : Inv (init_allocated_ports_cache atoi two_labels)
unfolding str_dec
init-Inv_example =
    init-Inv atoi two_labels (((text_ne "vnode-a" "vnode-b" refl, refl), tt), (tt, tt))

abbrev calls : List PortCall
calls = allocates "vnode-a" ∷ releases "vnode-c" ∷ []

run_no_conflict_example : ◌≡◌ {A = String} "vnode-a" "vnode-a"
unfolding run step release_proxier_port allocate_proxier_port lookup str_dec
run_no_conflict_example =
    run_no_conflict one_node calls "vnode-a" "vnode-a" 15007 one_node-Inv refl refl

-- A node that is not known gets the port of its name's hash, where that is free.
fresh_port : (allocate_proxier_port no_ports "vnode-a").0 ≡ some 35343
unfolding allocate_proxier_port lookup str_dec ℕ_discrete base_port find_port
fresh_port = refl
