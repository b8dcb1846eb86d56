-- ===== src/VirtualPod/Spec/Renamed.antt =====
-- What the replacement of names in a spec makes of it, element by element.
use kubeocean.Prelude.{ℕ, suc, List, [], ◌∷◌, if◌then◌else◌}
use kubeocean.VirtualPod.Spec.{Source, Spec, replace_downward, has_token, over, replace_field_path}

abbrev tokens_of : List Source → ℕ
tokens_of [] = 0
tokens_of (s ∷ ss) = if has_token s then suc (tokens_of ss) else tokens_of ss
