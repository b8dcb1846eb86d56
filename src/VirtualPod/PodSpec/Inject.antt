-- ===== src/VirtualPod/PodSpec/Inject.antt =====
-- What the injection of variables leaves of a container's environment.
use kubeocean.Prelude.{
  ◌∙◌, text_ne, ◌≡◌, ◌≢◌, refl, Bool, true, false, not, ◌&&◌, ◌||◌, List, [], ◌∷◌, ◌++◌, map, arith,
  String, any, all, select, find, Option, some, if◌then◌else◌,
}
use kubeocean.VirtualPod.PodSpec.{
  service_host, service_port, hostname_var, is_named, plain, inject_kubernetes_service_env_vars,
  set_first, inject_hostname_env_var, inject,
}
use mathlib.Core.Option.{none}
use kubeocean.VirtualPod.Spec.{EnvVar, Container}
use kubeocean.VirtualPod.PodSpec.Env.{
  is_set, has_value, is_injected, set_both, ports_differ, all-set_both, select-set_both,
  any-set_both, any-append_one, all-append_one, select-append_one,
}

-- The environment `after`, as far as the API server is concerned: its variables have the values, and
-- there is one for the host if `a`, one for the port if `b`; the others are those of `before`.
abbrev IsInjected : String → String → List EnvVar → List EnvVar → Bool → Bool → Type 0
IsInjected host port before after a b =
    (all (λ e. has_value service_host host e && has_value service_port port e) after ≡ true)
    × (any (is_named service_host) after ≡ a)
    × (any (is_named service_port) after ≡ b)
    × (select (λ e. not (is_injected e)) after ≡ select (λ e. not (is_injected e)) before)

-- One more variable, which is one of the three.
append_one-IsInjected :
    (host port n v : String) (before m : List EnvVar) (a b : Bool)
    → (has_value service_host host (plain n v) && has_value service_port port (plain n v)) ≡ true
    → is_injected (plain n v) ≡ true
    → IsInjected host port before m a b
    → IsInjected host port before
        (m ++ (plain n v ∷ []))
        (a || is_named service_host (plain n v))
        (b || is_named service_port (plain n v))
append_one-IsInjected host port n v before m a b good inj (p, x, y, z) = (
  all-append_one (λ e. has_value service_host host e && has_value service_port port e) m (plain n v)
      ∙ ground (arith, p, good),
  any-append_one (is_named service_host) m (plain n v) ∙ ground (arith, x),
  any-append_one (is_named service_port) m (plain n v) ∙ ground (arith, y),
  select-append_one (λ e. not (is_injected e)) m (plain n v) (ground (arith, inj)) ∙ z,
)

with_host :
    (host port : String) (before m : List EnvVar) (a b : Bool)
    → IsInjected host port before m a b
    → IsInjected host port before (m ++ (plain service_host host ∷ [])) true b
with_host host port before m a b s =
    let (p, x, y, z) =
      append_one-IsInjected host port service_host host before m a b (ground (arith, ports_differ))
        (ground arith) s in
    (p, x ∙ ground arith, y ∙ ground (arith, ports_differ), z)

with_port :
    (host port : String) (before m : List EnvVar) (a b : Bool)
    → IsInjected host port before m a b
    → IsInjected host port before (m ++ (plain service_port port ∷ [])) a true
with_port host port before m a b s =
    let (p, x, y, z) =
      append_one-IsInjected host port service_port port before m a b (ground (arith, ports_differ))
        (ground arith) s in
    (p, x ∙ ground (arith, ports_differ), y ∙ ground arith, z)

inject_kubernetes-IsInjected :
    (host port : String) (env : List EnvVar)
    → IsInjected host port env (inject_kubernetes_service_env_vars host port env) true true
unfolding inject_kubernetes_service_env_vars set_both
inject_kubernetes-IsInjected host port env =
    by_tests (map (set_both host port) env) (any (is_named service_host) env)
      (any (is_named service_port) env)
      (
        all-set_both host port env,
        any-set_both service_host host port env,
        any-set_both service_port host port env,
        select-set_both host port env,
      )
  where
    by_tests :
        (m : List EnvVar) (a b : Bool)
        → IsInjected host port env m a b
        → IsInjected host port env
            (if b
              then (if a then m else m ++ (plain service_host host ∷ []))
              else (if a then m else m ++ (plain service_host host ∷ []))
                ++ (plain service_port port ∷ []))
            true
            true
    by_tests m true true s = s
    by_tests m false true s = with_host host port env m false true s
    by_tests m true false s = with_port host port env m true false s
    by_tests m false false s =
        with_port host port env _ true false (with_host host port env m false false s)

hostname_differs : (hostname_var ≢ service_host) × (hostname_var ≢ service_port)
hostname_differs = (text_ne hostname_var service_host refl, text_ne hostname_var service_port refl)

-- The hostname is set in the first variable of its name, and nothing else is changed.
set_first-IsInjected :
    (host port v : String) (before m : List EnvVar) (a b : Bool)
    → IsInjected host port before m a b
    → IsInjected host port before (set_first hostname_var v m) a b
unfolding set_first
set_first-IsInjected host port v before m a b (p, x, y, z) =
    (all_good m p, any_host m ∙ x, any_port m ∙ y, others m ∙ z)
  where
    all_good :
        (m : List EnvVar)
        → all (λ e. has_value service_host host e && has_value service_port port e) m ≡ true
        → all
            (λ e. has_value service_host host e && has_value service_port port e)
            (set_first hostname_var v m)
          ≡ true
    all_good [] h = ground (arith, hostname_differs.0, hostname_differs.1)
    all_good (e ∷ m) h = ground (arith, h, all_good m, hostname_differs.0, hostname_differs.1)

    any_host :
        (m : List EnvVar)
        → any (is_named service_host) (set_first hostname_var v m) ≡ any (is_named service_host) m
    any_host [] = ground (arith, hostname_differs.0)
    any_host (e ∷ m) = ground (arith, any_host m, hostname_differs.0)

    any_port :
        (m : List EnvVar)
        → any (is_named service_port) (set_first hostname_var v m) ≡ any (is_named service_port) m
    any_port [] = ground (arith, hostname_differs.1)
    any_port (e ∷ m) = ground (arith, any_port m, hostname_differs.1)

    others :
        (m : List EnvVar)
        → select (λ e. not (is_injected e)) (set_first hostname_var v m)
          ≡ select (λ e. not (is_injected e)) m
    others [] = ground arith
    others (e ∷ m) = ground (arith, others m)

-- The value of a variable, and that it does not take it from elsewhere.
abbrev pub value_of : Option EnvVar → Option (String × Bool)
value_of none = none
value_of (some e) = some (e.value, is_set e.from)

find-set_first :
    (v : String) (m : List EnvVar)
    → value_of (find (is_named hostname_var) (set_first hostname_var v m)) ≡ some (v, true)
unfolding set_first
find-set_first v [] = ground arith
find-set_first v (e ∷ m) = ground (arith, find-set_first v m)

-- In the environment that a container gets, every variable for the host and the port of the API
-- server has the value of the one that the physical cluster can reach and takes it from nowhere else,
-- there is one for each, the first HOSTNAME has the name of the virtual pod and takes it from nowhere
-- else, and the other variables are those that the container had, in their order.
pub inject_lem :
    (host port pod_name : String) (c : Container)
    → let env = (inject host port pod_name c).env in
      (all (λ e. has_value service_host host e && has_value service_port port e) env ≡ true)
      × (any (is_named service_host) env ≡ true)
      × (any (is_named service_port) env ≡ true)
      × (select (λ e. not (is_injected e)) env ≡ select (λ e. not (is_injected e)) c.env)
      × (value_of (find (is_named hostname_var) env) ≡ some (pod_name, true))
unfolding inject_hostname_env_var
inject_lem host port pod_name c =
    let m = inject_kubernetes_service_env_vars host port c.env in
    let (p, x, y, z) =
      set_first-IsInjected host port pod_name c.env m true true
        (inject_kubernetes-IsInjected host port c.env) in
    (p, x, y, z, find-set_first pod_name m)
