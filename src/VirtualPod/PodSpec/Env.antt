-- ===== src/VirtualPod/PodSpec/Env.antt =====
-- What the first pass of the injection leaves of a container's environment.
use kubeocean.Prelude.{
  ◌∙◌, text_ne, ◌≡◌, ◌≢◌, refl, Bool, true, false, not, ◌&&◌, ◌||◌, List, [], ◌∷◌, ◌++◌, map, arith,
  String, ◌==◌, any, all, select, if◌then◌else◌,
}
use kubeocean.VirtualPod.PodSpec.{service_host, service_port, hostname_var, is_named, set_env}
use mathlib.Core.Option.{Option, none, some}
use kubeocean.VirtualPod.Spec.{EnvVar, ValueFrom}

-- A variable that has no other source of its value.
abbrev pub is_set : Option ValueFrom → Bool
is_set none = true
is_set (some f) = false

-- Every variable of the name has the value, and does not take it from elsewhere.
abbrev pub has_value : String → String → EnvVar → Bool
has_value n v e = not (is_named n e) || (e.value == v && is_set e.from)

-- One of the three that are injected.
abbrev pub is_injected : EnvVar → Bool
is_injected e = is_named service_host e || is_named service_port e || is_named hostname_var e

-- What a variable is after it was set, or not.
pub name-set_env : (n v : String) (e : EnvVar) → (set_env n v e).name ≡ e.name
name-set_env n v e = by_name (e.name == n)
  where
    by_name : (b : Bool) → (if b then record e { value = v; from = none } else e).name ≡ e.name
    by_name true = refl
    by_name false = refl

pub value-set_env :
    (n v : String) (e : EnvVar) → (set_env n v e).value ≡ (if e.name == n then v else e.value)
value-set_env n v e = by_name (e.name == n)
  where
    by_name :
        (b : Bool)
        → (if b then record e { value = v; from = none } else e).value ≡ (if b then v else e.value)
    by_name true = refl
    by_name false = refl

pub set-set_env :
    (n v : String) (e : EnvVar)
    → is_set (set_env n v e).from ≡ (if e.name == n then true else is_set e.from)
set-set_env n v e = by_name (e.name == n)
  where
    by_name :
        (b : Bool)
        → is_set (if b then record e { value = v; from = none } else e).from
          ≡ (if b then true else is_set e.from)
    by_name true = refl
    by_name false = refl

unfoldable pub set_both : String → String → EnvVar → EnvVar
set_both host port e = set_env service_port port (set_env service_host host e)

pub name-set_both : (host port : String) (e : EnvVar) → (set_both host port e).name ≡ e.name
unfolding set_both
name-set_both host port e =
    name-set_env service_port port (set_env service_host host e) ∙ name-set_env service_host host e

pub value-set_both :
    (host port : String) (e : EnvVar)
    → (set_both host port e).value
      ≡ (if e.name == service_port then port else if e.name == service_host then host else e.value)
unfolding set_both
value-set_both host port e = ground (
  arith,
  value-set_env service_port port (set_env service_host host e),
  name-set_env service_host host e,
  value-set_env service_host host e,
)

pub set-set_both :
    (host port : String) (e : EnvVar)
    → is_set (set_both host port e).from
      ≡ (if e.name == service_port || e.name == service_host then true else is_set e.from)
unfolding set_both
set-set_both host port e = ground (
  arith,
  set-set_env service_port port (set_env service_host host e),
  name-set_env service_host host e,
  set-set_env service_host host e,
)

pub ports_differ : service_host ≢ service_port
ports_differ = text_ne service_host service_port refl

pub all-set_both :
    (host port : String) (env : List EnvVar)
    → all
        (λ e. has_value service_host host e && has_value service_port port e)
        (map (set_both host port) env)
      ≡ true
all-set_both host port [] = refl
all-set_both host port (e ∷ env) = ground (
  arith,
  all-set_both host port env,
  name-set_both host port e,
  value-set_both host port e,
  set-set_both host port e,
  ports_differ,
)

pub set_both-other :
    (host port : String) (e : EnvVar) → is_injected e ≡ false → set_both host port e ≡ e
unfolding set_both
set_both-other host port e n = rw (off_host, off_port) refl
  where
    off_host : (e.name == service_host) ≡ false
    off_host = ground (arith, n)

    off_port : (e.name == service_port) ≡ false
    off_port = ground (arith, n)

pub injected-set_both :
    (host port : String) (e : EnvVar) → is_injected (set_both host port e) ≡ is_injected e
injected-set_both host port e = rw (name-set_both host port e) refl

-- The other variables are untouched.
pub select-set_both :
    (host port : String) (env : List EnvVar)
    → select (λ e. not (is_injected e)) (map (set_both host port) env)
      ≡ select (λ e. not (is_injected e)) env
select-set_both host port [] = refl
select-set_both host port (e ∷ env) = ground (
  arith,
  select-set_both host port env,
  injected-set_both host port e,
  set_both-other host port e,
)

pub any-set_both :
    (n host port : String) (env : List EnvVar)
    → any (is_named n) (map (set_both host port) env) ≡ any (is_named n) env
any-set_both n host port [] = refl
any-set_both n host port (e ∷ env) =
    ground (arith, any-set_both n host port env, name-set_both host port e)

pub any-append_one :
    (p : EnvVar → Bool) (xs : List EnvVar) (e : EnvVar) → any p (xs ++ (e ∷ [])) ≡ (any p xs || p e)
any-append_one p [] e = ground arith
any-append_one p (x ∷ xs) e = ground (arith, any-append_one p xs e)

pub all-append_one :
    (p : EnvVar → Bool) (xs : List EnvVar) (e : EnvVar) → all p (xs ++ (e ∷ [])) ≡ (all p xs && p e)
all-append_one p [] e = ground arith
all-append_one p (x ∷ xs) e = ground (arith, all-append_one p xs e)

pub select-append_one :
    (p : EnvVar → Bool) (xs : List EnvVar) (e : EnvVar)
    → p e ≡ false
    → select p (xs ++ (e ∷ [])) ≡ select p xs
select-append_one p [] e h = ground (arith, h)
select-append_one p (x ∷ xs) e h = ground (arith, select-append_one p xs e h)
