-- ===== src/Contract/Views/Pages.antt =====
-- The pages of nodes that internal_get_nodes of contracts/src/node_registry.rs returns.
use seda_rust.Base.{
  ℕ, zero, suc, ◌+◌, ◌-◌, ◌%◌, ◌<◌, ◌≤◌, ◌≡◌, refl, ap, subst, arith, true, some, List, [], ◌∷◌,
  ◌++◌, ltb, length, get_elem?, get_elem?-total, contains, string_eq, Bool-cases, inl, inr,
  length-append, if◌then◌else◌, sub_u64_exact, Option-cases, ◌∙◌,
}
use seda_rust.Contract.Collections.{UnorderedMap, IsKeyed}
use seda_rust.Contract.State.{AccountId, Node, NodeInfo}
use seda_rust.Contract.Results.{Result, ok}
use seda_rust.Contract.Views.{usize_mod, node_info, push_node, collect_nodes, internal_get_nodes}

abbrev pub smaller : ℕ → ℕ → ℕ
smaller a b = if ltb a b then a else b

-- An entry of a page is what the map holds of the account at an index of its keys.
abbrev pub Listed : UnorderedMap AccountId Node → ℕ → NodeInfo → Type 0
Listed m i info =
    (node : Node) × (get_elem? m.keys i ≡ some info.account_id)
    × (m.entry info.account_id ≡ some node)
    × (info ≡ node_info info.account_id node)

-- The entries of the indices below `start`, from the highest down.
abbrev pub Lists : UnorderedMap AccountId Node → ℕ → List NodeInfo → Type 0
Lists m start [] = Unit {0}
Lists m zero (info ∷ infos) = ⊥
Lists m (suc i) (info ∷ infos) = Listed m i info × Lists m i infos

Lists-append :
    (m : UnorderedMap AccountId Node) (start i : ℕ) (nodes : List NodeInfo) (info : NodeInfo)
    → Lists m start nodes
    → start ≡ length nodes + suc i
    → Listed m i info
    → Lists m start (nodes ++ info ∷ [])
Lists-append m start i [] info h e l =
    let here : Lists m (suc i) (info ∷ []) = (l, tt) in
    let same : suc i ≡ start = omega (arith, e) in subst (λ s. Lists m s (info ∷ [])) same here
Lists-append m zero i (n ∷ nodes) info h e l = h
Lists-append m (suc start) i (n ∷ nodes) info h e l =
    (h.0, Lists-append m start i nodes info h.1 (omega (arith, e)) l)

contains-get_elem? :
    (ks : List AccountId) (i : ℕ) (k : AccountId) → get_elem? ks i ≡ some k → contains ks k ≡ true
contains-get_elem? [] i k h = ground arith
contains-get_elem? (j ∷ ks) zero k h = ground (arith, string_eq.beq_iff j k)
contains-get_elem? (j ∷ ks) (suc i) k h = ground (arith, contains-get_elem? ks i k h)

index_lem : (i : ℕ) → i < usize_mod → (suc i + usize_mod - 1) % usize_mod ≡ i
index_lem i h = omega arith

-- A page of the keys below `start`, and how long it is.
pub record Page (m : UnorderedMap AccountId Node) (r : Result (List NodeInfo)) (start n : ℕ)
    : Type 0 where
  pub nodes : List NodeInfo
  pub returned : r ≡ ok nodes
  pub full : length nodes ≡ n
  pub listed : Lists m start nodes

module _ (m : UnorderedMap AccountId Node) (limit : ℕ) (keyed : IsKeyed m)
    (small : length m.keys < usize_mod) (limited : limit < usize_mod) where
  entry_at :
      (i : ℕ)
      → i < length m.keys
      → (k : AccountId) × (node : Node) × (get_elem? m.keys i ≡ some k) × (m.entry k ≡ some node)
  entry_at i h =
      let (k, found) = get_elem?-total m.keys i h in
      elim (Option-cases (m.entry k)) [
        | inl missing ↦ absurd (ground (arith, contains-get_elem? m.keys i k found, keyed.listed k))
        | inr (node, e) ↦ (k, node, found, e)
      ]

  push_node-some :
      (i : ℕ) (k : AccountId) (node : Node) (nodes : List NodeInfo)
      → i < usize_mod
      → get_elem? m.keys i ≡ some k
      → m.entry k ≡ some node
      → push_node m.entry (get_elem? m.keys ((suc i + usize_mod - 1) % usize_mod)) nodes
        ≡ ok (nodes ++ node_info k node ∷ [])
  unfolding push_node
  push_node-some i k node nodes h found e =
      ap (λ j. push_node m.entry (get_elem? m.keys j) nodes) (index_lem i h) ∙ rw (found, e) refl

  collect_nodes-Page :
      (start i : ℕ) (nodes : List NodeInfo)
      → i ≤ length m.keys
      → length nodes ≤ limit
      → start ≡ length nodes + i
      → Lists m start nodes
      → Page m (collect_nodes m limit i nodes) start (smaller limit start)
  unfolding collect_nodes
  collect_nodes-Page start zero nodes b l c a = record {
    nodes = nodes;
    returned = refl;
    full = ground arith;
    listed = a;
  }
  collect_nodes-Page start (suc i) nodes b l c a =
      let (k, node, found, e) = entry_at i (omega arith) in
      let pushed = push_node-some i k node nodes (omega arith) found e in
      elim (Bool-cases (ltb (length nodes) limit)) [
        | inl more ↦
            let fits : ltb limit usize_mod ≡ true = ground arith in
            let longer = length-append nodes (node_info k node ∷ []) in
            let p =
              collect_nodes-Page start i (nodes ++ node_info k node ∷ []) (omega arith)
                (ground arith) (omega (arith, longer, c))
                (Lists-append m start i nodes (node_info k node) a c (node, found, e, refl)) in
            record {
              nodes = p.nodes;
              returned = rw (fits, more, pushed) p.returned;
              full = p.full;
              listed = p.listed;
            }
        | inr enough ↦ record {
          nodes = nodes;
          returned = ground arith;
          full = ground arith;
          listed = a;
        }
      ]

  -- For a map whose keys are those of its entries, with fewer than 2^32 keys, a limit below 2^32 and
  -- an offset of at most the number of nodes, `internal_get_nodes` returns a page: the nodes
  -- of the keys at the indices from the number of nodes less the offset, less one, downwards, each as
  -- the map holds it, and as many as are left after the offset, or the limit if that is less.
  pub internal_get_nodes-Page :
      (offset : ℕ)
      → offset ≤ length m.keys
      → Page m
          (internal_get_nodes m limit offset)
          (length m.keys - offset)
          (smaller limit (length m.keys - offset))
  unfolding internal_get_nodes
  internal_get_nodes-Page offset h =
      let left = sub_u64_exact (length m.keys) offset h (omega arith) in
      let p =
        collect_nodes-Page (length m.keys - offset) (length m.keys - offset) [] (omega arith)
          (omega arith) (omega arith) tt in
      record {
        nodes = p.nodes;
        returned = ap (λ n. collect_nodes m limit n []) left ∙ p.returned;
        full = p.full;
        listed = p.listed;
      }
