-- ===== src/VirtualPod/Whole.antt =====
-- The controller of virtual pods as a whole: with the synchronisation of what a pod depends on and
-- with the spec that is built.
use kubeocean.Prelude.{ℕ, String}
use kubeocean.VirtualPod.Allowed.{Allowed}
use kubeocean.VirtualPod.Build.{Env, Builder}
use kubeocean.VirtualPod.Dependents
use kubeocean.VirtualPod.PodSpec

module _ {Ephemeral : Type 0} (print : ℕ → String) (trim_right : String → String → String)
    (env : Env Ephemeral) where
  open env use {md5_hex, base64, api, config}

  abbrev pub builder_of : Builder Ephemeral
  builder_of = record {
    sync_dependent_resources = Dependents.sync_dependent_resources md5_hex base64 api config;
    build_physical_pod_spec = PodSpec.build_physical_pod_spec print trim_right api config;
  }

  -- The environment with the builder of the code.
  abbrev pub whole : Env Ephemeral
  whole = record env { builder = builder_of }
