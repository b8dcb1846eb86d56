-- ===== src/Ports/Probe.antt =====
-- physical_node_controller.go: hashString and the probing loop of allocateProxierPort.
use Prim.Native.Nat.{bit_xor}
use Prim.Native.Char.{code}
use kubeocean.Dict.{lookup, is_some}
use kubeocean.Prelude.{
  ℕ, zero, suc, ◌+◌, ◌-◌, ◌*◌, ◌%◌, ◌^◌, ◌≤◌, ◌<◌, ◌≡◌, inl, inr, Bool, true, false, Option, none,
  some, ◌⊎◌, dec_lt, List, [], ◌∷◌, arith, ltb, String, ℕ_discrete, if◌then◌else◌, Bool-cases,
}

-- The runes of a text.
abbrev codes : String → List ℕ
codes String.[] = []
codes (String.◌∷◌ c s) = code c ∷ codes s

-- FNV-1a over uint32, which wraps.
hash_from : ℕ → List ℕ → ℕ
hash_from hash [] = hash
hash_from hash (c ∷ cs) = hash_from (bit_xor hash c % 2 ^ 32 * 0x01000193 % 2 ^ 32) cs

unfoldable pub hash_string : String → ℕ
unfolding hash_from
hash_string s = hash_from 0x811c9dc5 (codes s)

abbrev pub port_min : ℕ
port_min = 15000

abbrev pub port_max : ℕ
port_max = 65535

abbrev pub InRange : ℕ → Type 0
InRange port = (port_min ≤ port) × (port ≤ port_max)

unfoldable pub base_port : String → ℕ
unfolding hash_string
base_port name = port_min + hash_string name % (port_max - port_min + 1)

pub base_port-InRange : (name : String) → InRange (base_port name)
unfolding base_port
base_port-InRange name = omega arith

-- The port that the loop tries at an offset: past the end it starts over.
abbrev candidate : ℕ → ℕ → ℕ
candidate base offset =
    if ltb port_max (base + offset)
    then port_min + (base + offset - port_max - 1)
    else base + offset

-- `_, used := r.allocatedPorts[port]`
abbrev pub is_used : List (ℕ × String) → ℕ → Bool
is_used allocated port = is_some (lookup ℕ_discrete port allocated)

-- The loop: the rounds left, and the offset.
pub probe : List (ℕ × String) → ℕ → ℕ → ℕ → Option ℕ
probe allocated base zero offset = none
probe allocated base (suc rounds) offset =
    let rest = probe allocated base rounds (suc offset) in
    if is_used allocated (candidate base offset) then rest else some (candidate base offset)

-- The base port first, and then every offset from 1 to `port_max - port_min`.
unfoldable pub find_port : List (ℕ × String) → ℕ → Option ℕ
find_port allocated base =
    let rest = probe allocated base (port_max - port_min) 1 in
    if is_used allocated base then rest else some base

candidate-InRange :
    (base offset : ℕ)
    → InRange base
    → offset ≤ port_max - port_min
    → InRange (candidate base offset)
candidate-InRange base offset r h = ground arith

probe_sound :
    (allocated : List (ℕ × String)) (base rounds offset : ℕ) {port : ℕ}
    → InRange base
    → offset + rounds ≤ port_max - port_min + 1
    → probe allocated base rounds offset ≡ some port
    → InRange port × (is_used allocated port ≡ false)
unfolding probe
probe_sound allocated base zero offset {port} r b h = cc
probe_sound allocated base (suc rounds) offset {port} r b h =
    elim (Bool-cases (is_used allocated (candidate base offset))) [
      | inl used ↦
          probe_sound allocated base rounds (suc offset) r (omega arith) (rw (used, probe) at h)
      | inr free ↦
          let e : candidate base offset ≡ port = cc (rw (free, probe) at h) in
          rw (← e) (candidate-InRange base offset r (omega arith), free)
    ]

probe_full :
    (allocated : List (ℕ × String)) (base rounds offset o : ℕ)
    → probe allocated base rounds offset ≡ none
    → offset ≤ o
    → o < offset + rounds
    → is_used allocated (candidate base o) ≡ true
unfolding probe
probe_full allocated base zero offset o h l u = absurd (omega arith)
probe_full allocated base (suc rounds) offset o h l u = elim (ℕ_discrete offset o) [
  | yes e ↦ rw (← e) (ground arith)
  | no n ↦
      probe_full allocated base rounds (suc offset) o (ground arith) (omega arith) (omega arith)
]

if-used : (b : Bool) (x y : Option ℕ) {r : Option ℕ} → b ≡ true → (if b then x else y) ≡ r → x ≡ r
if-used true x y e h = h
if-used false x y e h = cc

if-free : (b : Bool) (x y : Option ℕ) {r : Option ℕ} → b ≡ false → (if b then x else y) ≡ r → y ≡ r
if-free true x y e h = cc
if-free false x y e h = h

-- A port that is found lies in the range and is not in use.
pub find_port_sound :
    (allocated : List (ℕ × String)) (base : ℕ) {port : ℕ}
    → InRange base
    → find_port allocated base ≡ some port
    → InRange port × (is_used allocated port ≡ false)
unfolding find_port
find_port_sound allocated base {port} r h = elim (Bool-cases (is_used allocated base)) [
  | inl used ↦
      probe_sound allocated base (port_max - port_min) 1 r (omega arith)
        (if-used (is_used allocated base) _ _ used h)
  | inr free ↦
      let e : base ≡ port = cc (if-free (is_used allocated base) _ _ free h) in rw (← e) (r, free)
]

covers :
    (base port : ℕ)
    → InRange base
    → InRange port
    → (o : ℕ) × (o ≤ port_max - port_min) × (candidate base o ≡ port)
covers base port b p = elim (dec_lt port base) [
  | yes h ↦ (port + (port_max - port_min + 1) - base, omega arith, ground arith)
  | no h ↦ (port - base, omega arith, ground arith)
]

-- The search fails only where every port of the range is in use.
pub find_port_full :
    (allocated : List (ℕ × String)) (base port : ℕ)
    → InRange base
    → find_port allocated base ≡ none
    → InRange port
    → is_used allocated port ≡ true
unfolding find_port
find_port_full allocated base port b h p =
    let used : is_used allocated base ≡ true = base_used (Bool-cases (is_used allocated base)) in
    let rest : probe allocated base (port_max - port_min) 1 ≡ none =
      if-used (is_used allocated base) _ _ used h in
    let (o, l, e) = covers base port b p in
    elim (ℕ_discrete o 0) [
      | yes z ↦ rw (← e, z) (rw (candidate_zero base b) used)
      | no n ↦
          rw (← e)
            (probe_full allocated base (port_max - port_min) 1 o rest (omega arith) (omega arith))
    ]
  where
    some_ne : {n : ℕ} → some n ≡ none → ⊥
    some_ne e = cc

    base_used :
        (is_used allocated base ≡ true) ⊎ (is_used allocated base ≡ false)
        → is_used allocated base ≡ true
    base_used (inl u) = u
    base_used (inr f) = absurd (some_ne (if-free (is_used allocated base) _ _ f h))

    candidate_zero : (base : ℕ) → InRange base → candidate base 0 ≡ base
    candidate_zero base b = ground arith
