-- ===== src/VirtualPod/Spec/Mapped.antt =====
-- What a collector of names finds, and that each element of a spec then has its names mapped.
use kubeocean.Dict.{StrMap, lookup, lookup-insert, put, has}
use kubeocean.Prelude.{
  ◌≡◌, refl, Bool, true, Option, none, some, List, [], ◌∷◌, arith, String, str_dec, All, All-map,
}
use kubeocean.Prelude.Maybe.{traverse, Succeeds, bind-Succeeds, traverse-Succeeds}
use kubeocean.VirtualPod.Spec.{
  Kind, config_map, secret, Ref, Refs, Source, Volume, ValueFrom, EnvVar, Container, Required, pick,
  each, when_some, add_ref, add_refs, collect_volume, collect_env, collect_container,
  ResourceMapping, rename, rename_claim, replace_refs, replace_source, replace_from, replace_env,
  replace_container,
}

-- A collector loses no name.
abbrev pub Grows : (Required → Required) → Type 0
Grows t = (m : Required) (k : String) → has k m ≡ true → has k (t m) ≡ true

-- What a collector finds, from some names on, is named by the mapping.
abbrev pub IsMapped : StrMap → (Required → Required) → Type 0
IsMapped r t = (m : Required) × ((k : String) → has k (t m) ≡ true → has k r ≡ true)

pub has-put : (k : String) (b : Bool) (m : Required) → has k (put k b m) ≡ true
has-put k b m = ground (arith, lookup-insert str_dec k k b m)

pub put-Grows : (n : String) (b : Bool) → Grows (put n b)
put-Grows n b m k h = ground (arith, lookup-insert str_dec n k b m)

pub each-Grows :
    {A : Type 0} (f : A → Required → Required)
    → ((a : A) → Grows (f a))
    → (xs : List A) → Grows (each f xs)
each-Grows f g [] m k h = h
each-Grows f g (x ∷ xs) m k h = each-Grows f g xs (f x m) k (g x m k h)

pub when_some-Grows :
    {A : Type 0} (f : A → Required → Required)
    → ((a : A) → Grows (f a))
    → (o : Option A) → Grows (when_some f o)
when_some-Grows f g none m k h = h
when_some-Grows f g (some a) m k h = g a m k h

pub outer : (r : StrMap) (t s : Required → Required) → IsMapped r (λ m. t (s m)) → IsMapped r t
outer r t s (m, h) = (s m, h)

pub inner :
    (r : StrMap) (t s : Required → Required) → Grows t → IsMapped r (λ m. t (s m)) → IsMapped r s
inner r t s g (m, h) = (m, λ k e. h k (g (s m) k e))

pub each-IsMapped :
    {A : Type 0} (r : StrMap) (f : A → Required → Required)
    → ((a : A) → Grows (f a))
    → (xs : List A) → IsMapped r (each f xs)
    → All (λ x. IsMapped r (f x)) xs
each-IsMapped r f g [] c = tt
each-IsMapped r f g (x ∷ xs) c = (
  inner r (each f xs) (f x) (each-Grows f g xs) c,
  each-IsMapped r f g xs (outer r (each f xs) (f x) c),
)

pub put-IsMapped :
    (r : StrMap) (k : String) (b : Bool) → IsMapped r (put k b) → Succeeds (lookup str_dec k r)
put-IsMapped r k b (m, h) = by_value (lookup str_dec k r) (h k (has-put k b m))
  where
    by_value : (o : Option String) → kubeocean.Dict.is_some o ≡ true → Succeeds o
    by_value none e = absurd (ground (arith, e))
    by_value (some v) e = (v, refl)

pub All-both :
    {A : Type 0} (P Q : A → Type 0) (xs : List A) → All P xs → All Q xs → All (λ x. P x × Q x) xs
All-both P Q [] p q = tt
All-both P Q (x ∷ xs) p q = ((p.0, q.0), All-both P Q xs p.1 q.1)

pub add_refs-Grows : (kind : Kind) (r : Refs) → Grows (add_refs kind r)
add_refs-Grows kind r = when_some-Grows add_ref (λ a. put-Grows a.name _) (pick kind r)

pub collect_sources-Grows :
    (kind : Kind) (o : Option (List Source))
    → Grows (when_some (λ sources. each (λ (s : Source). add_refs kind s.refs) sources) o)
collect_sources-Grows kind o =
    when_some-Grows _ (λ sources. each-Grows _ (λ s. add_refs-Grows kind s.refs) sources) o

pub collect_volume-Grows : (kind : Kind) (v : Volume) → Grows (collect_volume kind v)
collect_volume-Grows kind v m k h =
    collect_sources-Grows kind v.projected _ k (add_refs-Grows kind v.refs m k h)

pub collect_env-Grows : (kind : Kind) (e : EnvVar) → Grows (collect_env kind e)
collect_env-Grows kind e = when_some-Grows _ (λ f. add_refs-Grows kind f.refs) e.from

pub collect_container-Grows : (kind : Kind) (c : Container) → Grows (collect_container kind c)
collect_container-Grows kind c m k h =
    each-Grows _ (add_refs-Grows kind) c.env_from _ k
      (each-Grows _ (collect_env-Grows kind) c.env m k h)

-- Of the two collectors of one kind of element, what a mapping has to name.
abbrev pub BothMapped :
    {A : Type 0} → ResourceMapping → (Kind → A → Required → Required) → A → Type 0
BothMapped m f a = IsMapped m.config_maps (f config_map a) × IsMapped m.secrets (f secret a)

pub each-BothMapped :
    {A : Type 0} (m : ResourceMapping) (f : Kind → A → Required → Required)
    → ((kind : Kind) (a : A) → Grows (f kind a))
    → (xs : List A) → BothMapped m (λ kind. each (f kind)) xs
    → All (BothMapped m f) xs
each-BothMapped m f g xs (c, s) =
    All-both _ _ xs (each-IsMapped m.config_maps (f config_map) (g config_map) xs c)
      (each-IsMapped m.secrets (f secret) (g secret) xs s)

pub rename-Succeeds :
    (r : StrMap) (o : Option Ref) → IsMapped r (when_some add_ref o) → Succeeds (rename r o)
rename-Succeeds r none c = (none, refl)
rename-Succeeds r (some a) c =
    bind-Succeeds (lookup str_dec a.name r) _ (put-IsMapped r a.name _ c) (λ n. (_, refl))

pub rename_claim-Succeeds :
    (r : StrMap) (o : Option String)
    → IsMapped r (when_some (λ name m. put name true m) o)
    → Succeeds (rename_claim r o)
rename_claim-Succeeds r none c = (none, refl)
rename_claim-Succeeds r (some a) c =
    bind-Succeeds (lookup str_dec a r) _ (put-IsMapped r a true c) (λ n. (_, refl))

pub replace_refs-Succeeds :
    (m : ResourceMapping) (r : Refs) → BothMapped m add_refs r → Succeeds (replace_refs m r)
replace_refs-Succeeds m r (c, s) =
    bind-Succeeds (rename m.config_maps r.config_map_ref) _
      (rename-Succeeds m.config_maps r.config_map_ref c)
      (λ a.
        bind-Succeeds (rename m.secrets r.secret_ref) _ (rename-Succeeds m.secrets r.secret_ref s)
          (λ b. (_, refl)))

pub replace_source-Succeeds :
    (m : ResourceMapping) (s : Source)
    → BothMapped m (λ kind (s : Source). add_refs kind s.refs) s
    → Succeeds (replace_source m s)
replace_source-Succeeds m s c =
    bind-Succeeds (replace_refs m s.refs) _ (replace_refs-Succeeds m s.refs c) (λ r. (_, refl))

pub replace_from-Succeeds :
    (m : ResourceMapping) (o : Option ValueFrom)
    → BothMapped m (λ kind. when_some (λ (f : ValueFrom). add_refs kind f.refs)) o
    → Succeeds (replace_from m o)
replace_from-Succeeds m none c = (none, refl)
replace_from-Succeeds m (some f) c =
    bind-Succeeds (replace_refs m f.refs) _ (replace_refs-Succeeds m f.refs c) (λ r. (_, refl))

pub replace_env-Succeeds :
    (m : ResourceMapping) (e : EnvVar) → BothMapped m collect_env e → Succeeds (replace_env m e)
replace_env-Succeeds m e c =
    bind-Succeeds (replace_from m e.from) _ (replace_from-Succeeds m e.from c) (λ f. (_, refl))

pub replace_container-Succeeds :
    (m : ResourceMapping) (c : Container)
    → BothMapped m collect_container c
    → Succeeds (replace_container m c)
replace_container-Succeeds m c (a, b) =
    bind-Succeeds (traverse (replace_env m) c.env) _
      (traverse-Succeeds (replace_env m) c.env (
        All-map c.env (replace_env-Succeeds m) (
          each-BothMapped m collect_env collect_env-Grows c.env (
            inner m.config_maps (each (add_refs config_map) c.env_from) _
                (each-Grows _ (add_refs-Grows config_map) c.env_from) a,
            inner m.secrets (each (add_refs secret) c.env_from) _
                (each-Grows _ (add_refs-Grows secret) c.env_from) b,
          ))))
      (λ env'.
        bind-Succeeds (traverse (replace_refs m) c.env_from) _
          (traverse-Succeeds (replace_refs m) c.env_from (
            All-map c.env_from (replace_refs-Succeeds m) (
              each-BothMapped m add_refs add_refs-Grows c.env_from (
                outer m.config_maps (each (add_refs config_map) c.env_from)
                    (each (collect_env config_map) c.env) a,
                outer m.secrets (each (add_refs secret) c.env_from)
                    (each (collect_env secret) c.env) b,
              ))))
          (λ f. (_, refl)))
