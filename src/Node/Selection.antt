-- ===== src/Node/Selection.antt =====
-- physical_node_controller.go: getApplicablePolicies and the choice of one policy in processNode,
-- with pkg/utils/node_selector.go. The selectors of apimachinery that a term's requirements make
-- are parameters, and so is sort.Slice.
use Prim.Native.String.{compare}
use text.Mathlib.Text.{is_lt}
use text.Mathlib.TextPositions.{compare_refl}
use kubeocean.Node.Defs.{Node, Policy}
use kubeocean.Prelude.{
  ◌≡◌, refl, ap, Bool, true, false, not, ◌&&◌, ◌||◌, ◌↔◌, Option, none, some, List, [], ◌∷◌, arith,
  String, ◌==◌, any, select, if◌then◌else◌, Any, All, inl, inr, subst, of_==, to_==,
}
use kubeocean.Prelude.Int.{ℤ, ltb_ℤ}

-- corev1.NodeSelectorTerm
pub record Term (Requirement : Type 0) : Type 0 where
  pub match_expressions : List Requirement
  pub match_fields : List Requirement

abbrev is_nil {ℓ} : {A : Type ℓ} → List A → Bool
is_nil [] = true
is_nil (_ ∷ _) = false

-- `by_labels` and `by_fields` build a selector of the requirements and match it; a failure to
-- build it is no match.
module _ {Requirement : Type 0} (by_labels by_fields : List Requirement → Node → Bool) where
  unfoldable pub matches_term : Node → Term Requirement → Bool
  matches_term n t =
      not (is_nil t.match_expressions && is_nil t.match_fields)
      && ((is_nil t.match_expressions || by_labels t.match_expressions n)
          && (is_nil t.match_fields || by_fields t.match_fields n))

  -- No selector, and one of no terms, match every node.
  unfoldable pub matches_selector : Node → Option (List (Term Requirement)) → Bool
  matches_selector n none = true
  matches_selector n (some terms) = is_nil terms || any (matches_term n) terms

  unfoldable pub node_matches_combined_selector :
      Node → Option (List (Term Requirement)) → Option (List (Term Requirement)) → Bool
  node_matches_combined_selector n policy cluster =
      matches_selector n policy && matches_selector n cluster

  abbrev pub is_applicable :
      String → Node → Option (List (Term Requirement)) → Policy (List (Term Requirement)) → Bool
  is_applicable binding n cluster policy =
      (not policy.deleting && policy.cluster == binding)
      && node_matches_combined_selector n policy.node_selector cluster

  -- `none` is a list of policies that could not be read.
  unfoldable pub get_applicable_policies :
      String
      → Node
      → Option (List (Term Requirement))
      → Option (List (Policy (List (Term Requirement))))
      → Option (List (Policy (List (Term Requirement))))
  get_applicable_policies binding n cluster none = none
  get_applicable_policies binding n cluster (some policies) =
      some (select (is_applicable binding n cluster) policies)

module _ {Selector : Type 0} where
  -- The older policy first, and of two of the same age the one with the lesser name.
  abbrev pub is_earlier : Policy Selector → Policy Selector → Bool
  is_earlier p q =
      if not (ltb_ℤ p.created q.created) && not (ltb_ℤ q.created p.created)
      then is_lt (compare p.name q.name)
      else ltb_ℤ p.created q.created

  -- What sort.Slice promises of its result `ys` for `xs`.
  pub record IsSorted (xs ys : List (Policy Selector)) : Type 0 where
    pub kept : (p : Policy Selector) → Any (λ q. q ≡ p) ys ↔ Any (λ q. q ≡ p) xs
    pub ordered :
        (p : Policy Selector) (rest : List (Policy Selector))
        → ys ≡ p ∷ rest
        → All (λ q. is_earlier q p ≡ false) rest

  abbrev head : List (Policy Selector) → Option (Policy Selector)
  head [] = none
  head (p ∷ _) = some p

  -- The policy that a node is run under; none where no policy applies.
  unfoldable pub select_policy :
      (List (Policy Selector) → List (Policy Selector))
      → List (Policy Selector)
      → Option (Policy Selector)
  select_policy sort [] = none
  select_policy sort (p ∷ []) = some p
  select_policy sort (p ∷ q ∷ policies) = head (sort (p ∷ q ∷ policies))

  not_earlier_self : (p : Policy Selector) → is_earlier p p ≡ false
  not_earlier_self p = rw (compare_refl p.name) (ground arith)

  not_earlier : (p q : Policy Selector) → p ≡ q → is_earlier q p ≡ false
  not_earlier p q e = subst (λ r. is_earlier r p ≡ false) e (not_earlier_self p)

  All-at :
      (P : Policy Selector → Type 0) (q : Policy Selector) (ps : List (Policy Selector))
      → All P ps
      → Any (λ p. p ≡ q) ps
      → P q
  All-at P q [] a m = elim m [ ]
  All-at P q (p ∷ ps) a (inl e) = subst P e a.0
  All-at P q (p ∷ ps) a (inr m) = All-at P q ps a.1 m

  abbrev pub IsEarliest : List (Policy Selector) → Policy Selector → Type 0
  IsEarliest policies p =
      Any (λ q. q ≡ p) policies
      × ((q : Policy Selector) → Any (λ r. r ≡ q) policies → is_earlier q p ≡ false)

  of_some : {a b : Policy Selector} → some a ≡ some b → a ≡ b
  of_some e = cc

  not_none : {a : Policy Selector} → none ≡ some a → ⊥
  not_none e = cc

  pub not_before :
      (q p : Policy Selector)
      → is_earlier q p ≡ false
      → (ltb_ℤ q.created p.created ≡ false)
        × (q.created ≡ p.created → is_lt (compare q.name p.name) ≡ false)
  not_before q p h = (ground arith, λ e. same_age e)
    where
      irreflexive : (z : ℤ) → ltb_ℤ z z ≡ false
      irreflexive z = ground arith

      same_age : q.created ≡ p.created → is_lt (compare q.name p.name) ≡ false
      same_age e =
          let a : ltb_ℤ q.created p.created ≡ false = rw e (irreflexive p.created) in
          let b : ltb_ℤ p.created q.created ≡ false = rw e (irreflexive p.created) in ground arith

  head-IsEarliest :
      (xs ys : List (Policy Selector)) (p : Policy Selector)
      → IsSorted xs ys
      → head ys ≡ some p
      → IsEarliest xs p
  head-IsEarliest xs [] p s e = absurd (not_none e)
  head-IsEarliest xs (y ∷ ys) p s e =
      subst (IsEarliest xs) (of_some e)
        ((s.kept y).0 (inl refl), λ q m. by_place q ((s.kept q).1 m))
    where
      by_place : (q : Policy Selector) → Any (λ r. r ≡ q) (y ∷ ys) → is_earlier q y ≡ false
      by_place q (inl k) = not_earlier y q k
      by_place q (inr m) = All-at (λ r. is_earlier r y ≡ false) q ys (s.ordered y ys refl) m

  select_policy-IsEarliest :
      (sort : List (Policy Selector) → List (Policy Selector)) (policies : List (Policy Selector))
      (p : Policy Selector)
      → IsSorted policies (sort policies)
      → select_policy sort policies ≡ some p
      → IsEarliest policies p
  unfolding select_policy
  select_policy-IsEarliest sort [] p s e = absurd (not_none e)
  select_policy-IsEarliest sort (x ∷ []) p s e =
      subst (IsEarliest (x ∷ [])) (of_some e) (inl refl, λ q m. by_place q m)
    where
      by_place : (q : Policy Selector) → Any (λ r. r ≡ q) (x ∷ []) → is_earlier q x ≡ false
      by_place q (inl k) = not_earlier x q k
      by_place q (inr m) = elim m [ ]
  select_policy-IsEarliest sort (x ∷ y ∷ ps) p s e =
      head-IsEarliest (x ∷ y ∷ ps) (sort (x ∷ y ∷ ps)) p s e

module _ {Requirement : Type 0} (by_labels by_fields : List Requirement → Node → Bool) where
  in_select :
      (f : Policy (List (Term Requirement)) → Bool) (p : Policy (List (Term Requirement)))
      (ps : List (Policy (List (Term Requirement))))
      → Any (λ q. q ≡ p) (select f ps) ↔ (Any (λ q. q ≡ p) ps × (f p ≡ true))
  in_select f p ps = (to ps, λ (m, t). from ps m t)
    where
      by_test :
          (x : Policy (List (Term Requirement))) (xs : List (Policy (List (Term Requirement))))
          (b : Bool)
          → f x ≡ b
          → (Any (λ q. q ≡ p) (select f xs) → Any (λ q. q ≡ p) xs × (f p ≡ true))
          → Any (λ q. q ≡ p) (if b then x ∷ select f xs else select f xs)
          → Any (λ q. q ≡ p) (x ∷ xs) × (f p ≡ true)
      by_test x xs false e r m = let (a, t) = r m in (inr a, t)
      by_test x xs true e r (inl k) = (inl k, subst (λ q. f q ≡ true) k e)
      by_test x xs true e r (inr m) = let (a, t) = r m in (inr a, t)

      to :
          (xs : List (Policy (List (Term Requirement))))
          → Any (λ q. q ≡ p) (select f xs)
          → Any (λ q. q ≡ p) xs × (f p ≡ true)
      to [] m = elim m [ ]
      to (x ∷ xs) m = by_test x xs (f x) refl (to xs) m

      clash : {b : Bool} → b ≡ false → b ≡ true → ⊥
      clash e f = cc

      back :
          (x : Policy (List (Term Requirement))) (xs : List (Policy (List (Term Requirement))))
          (b : Bool)
          → f x ≡ b
          → Any (λ q. q ≡ p) (x ∷ xs)
          → f p ≡ true
          → (Any (λ q. q ≡ p) xs → Any (λ q. q ≡ p) (select f xs))
          → Any (λ q. q ≡ p) (if b then x ∷ select f xs else select f xs)
      back x xs true e (inl k) t r = inl k
      back x xs true e (inr m) t r = inr (r m)
      back x xs false e (inr m) t r = r m
      back x xs false e (inl k) t r = absurd (clash (subst (λ q. f q ≡ false) k e) t)

      from :
          (xs : List (Policy (List (Term Requirement))))
          → Any (λ q. q ≡ p) xs
          → f p ≡ true
          → Any (λ q. q ≡ p) (select f xs)
      from [] m t = elim m [ ]
      from (x ∷ xs) m t = back x xs (f x) refl m t (λ n. from xs n t)

  -- What makes a policy apply to a node.
  pub record Applies (binding : String) (n : Node) (cluster : Option (List (Term Requirement)))
      (policy : Policy (List (Term Requirement))) : Type 0 where
    pub alive : policy.deleting ≡ false
    pub same_cluster : policy.cluster ≡ binding
    pub selects : matches_selector by_labels by_fields n policy.node_selector ≡ true
    pub in_cluster : matches_selector by_labels by_fields n cluster ≡ true

  applicable-Applies :
      (binding : String) (n : Node) (cluster : Option (List (Term Requirement)))
      (p : Policy (List (Term Requirement)))
      → is_applicable by_labels by_fields binding n cluster p ≡ true
      → Applies binding n cluster p
  unfolding node_matches_combined_selector
  applicable-Applies binding n cluster p h = record {
    alive = ground arith;
    same_cluster = of_== p.cluster binding (ground arith);
    selects = ground arith;
    in_cluster = ground arith;
  }

  Applies-applicable :
      (binding : String) (n : Node) (cluster : Option (List (Term Requirement)))
      (p : Policy (List (Term Requirement)))
      → Applies binding n cluster p
      → is_applicable by_labels by_fields binding n cluster p ≡ true
  unfolding node_matches_combined_selector
  Applies-applicable binding n cluster p a =
      rw (a.alive, to_== p.cluster binding a.same_cluster, a.selects, a.in_cluster) refl

  -- The policy that a node is run under is one that applies to it: it is not being deleted, is for
  -- this binding, and its selector and the binding's both match the node. No other policy that
  -- applies was created earlier, or at the same time under a lesser name. Of the sort it is known
  -- that it keeps the policies and puts none after one that it is to come before.
  pub selected_policy-IsEarliest :
      (sort : List (Policy (List (Term Requirement))) → List (Policy (List (Term Requirement))))
      (binding : String) (n : Node) (cluster : Option (List (Term Requirement)))
      (policies applicable : List (Policy (List (Term Requirement))))
      (p : Policy (List (Term Requirement)))
      → get_applicable_policies by_labels by_fields binding n cluster (some policies)
        ≡ some applicable
      → IsSorted applicable (sort applicable)
      → select_policy sort applicable ≡ some p
      → Any (λ q. q ≡ p) policies
        × Applies binding n cluster p
        × ((q : Policy (List (Term Requirement)))
            → Any (λ r. r ≡ q) policies
            → Applies binding n cluster q
            → (ltb_ℤ q.created p.created ≡ false)
              × (q.created ≡ p.created → is_lt (compare q.name p.name) ≡ false))
  unfolding get_applicable_policies
  selected_policy-IsEarliest sort binding n cluster policies applicable p g s e =
      let (member, applies) = (selected p).0 first.0 in
      (
        member,
        applicable-Applies binding n cluster p applies,
        λ q m a.
            not_before q p
              (first.1 q ((selected q).1 (m, Applies-applicable binding n cluster q a))),
      )
    where
      list_of :
          Option (List (Policy (List (Term Requirement)))) → List (Policy (List (Term Requirement)))
      list_of none = []
      list_of (some l) = l

      first : IsEarliest applicable p
      first = select_policy-IsEarliest sort applicable p s e

      selected :
          (q : Policy (List (Term Requirement)))
          → Any (λ r. r ≡ q) applicable ↔ (
              Any (λ r. r ≡ q) policies
              × (is_applicable by_labels by_fields binding n cluster q ≡ true))
      selected q =
          subst
            (λ l. Any (λ r. r ≡ q) l ↔ (
              Any (λ r. r ≡ q) policies
              × (is_applicable by_labels by_fields binding n cluster q ≡ true)))
            (ap list_of g)
            (in_select (is_applicable by_labels by_fields binding n cluster) q policies)
