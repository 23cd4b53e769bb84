-- ===== src/Sandbox/Static/Clean.antt =====
-- src/psrc/sandbox/static.py: which sources pass the scanner.
use strategy_adapter.Prelude.{
  ℕ, zero, suc, String, Bool, true, false, List, [], ◌∷◌, ◌++◌, none, some, contains, All, ◌==◌,
  string_eq, ◌≡◌, ◌↔◌, refl, sym, ◌∙◌, not-eq-false, Bool-cases, inl, inr, subst,
}
use strategy_adapter.Sandbox.Static.{
  NodeKind, import_names, import_from, call, attribute, other, Nodes, done, node, Parsed, tree,
  syntax_error, dangerous_calls, import_root, is_dunder, add_if, check_import, check_imports,
  check_import_from, check_call, check_attribute, check_node, visit, scan,
}

-- Every node below, however deep, is one of these.
pub data IsWithin : Nodes → NodeKind → Type 0 where
  here :
      {kind : NodeKind} {line column : ℕ} {children siblings : Nodes}
      → IsWithin (node kind line column children siblings) kind
  below :
      {kind inner : NodeKind} {line column : ℕ} {children siblings : Nodes}
      → IsWithin children inner
      → IsWithin (node kind line column children siblings) inner
  beside :
      {kind inner : NodeKind} {line column : ℕ} {children siblings : Nodes}
      → IsWithin siblings inner
      → IsWithin (node kind line column children siblings) inner

gathered :
    (P : NodeKind → Type 0) (kind : NodeKind) (line column : ℕ) (children siblings : Nodes)
    → P kind
    → ((k : NodeKind) → IsWithin children k → P k)
    → ((k : NodeKind) → IsWithin siblings k → P k)
    → (k : NodeKind) → IsWithin (node kind line column children siblings) k
    → P k
gathered P kind line column children siblings own inner next k here = own
gathered P kind line column children siblings own inner next k (below w) = inner k w
gathered P kind line column children siblings own inner next k (beside w) = next k w

module _ (allowed_imports : List String) where
  abbrev pub IsAllowedImport : String → Type 0
  IsAllowedImport name = contains allowed_imports (import_root name) ≡ true

  -- what a node may be
  abbrev pub IsAllowedNode : NodeKind → Type 0
  IsAllowedNode (import_names names) = All IsAllowedImport names
  IsAllowedNode (import_from level none) = level ≡ 0
  IsAllowedNode (import_from level (some name)) =
      (level ≡ 0) × ((name == "") ≡ false → IsAllowedImport name)
  IsAllowedNode (call none) = Unit
  IsAllowedNode (call (some name)) = contains dangerous_calls name ≡ false
  IsAllowedNode (attribute attr) = is_dunder attr ≡ false
  IsAllowedNode other = Unit

tree-injective : {m n : Nodes} → tree m ≡ tree n → m ≡ n
tree-injective h = cc

append_empty {ℓ} : {A : Type ℓ} (xs ys : List A) → xs ++ ys ≡ [] → (xs ≡ []) × (ys ≡ [])
append_empty [] ys h = (refl, h)
append_empty (x ∷ xs) ys h = cc

add_if_iff :
    (test : Bool) (code : String) (line column : ℕ) (message : String)
    → (add_if test code line column message ≡ []) ↔ (test ≡ false)
add_if_iff true code line column message = (λ h. cc, λ h. cc)
add_if_iff false code line column message = (λ h. refl, λ h. refl)

module _ (allowed_imports : List String) (line column : ℕ) where
  check_import_iff :
      (name : String)
      → (check_import allowed_imports name line column ≡ []) ↔ IsAllowedImport allowed_imports name
  unfolding check_import
  check_import_iff name = (λ h. not-eq-false _ ((add_if_iff _ _ line column _).0 h), λ h. rw h refl)

  check_imports_iff :
      (names : List String)
      → (check_imports allowed_imports names line column ≡ [])
        ↔ All (IsAllowedImport allowed_imports) names
  unfolding check_imports
  check_imports_iff [] = (λ h. tt, λ h. refl)
  check_imports_iff (name ∷ names) = (
    λ h.
        let (first, rest) = append_empty (check_import allowed_imports name line column) _ h in
        ((check_import_iff name).0 first, (check_imports_iff names).0 rest),
    λ h. rw ((check_import_iff name).1 h.0, (check_imports_iff names).1 h.1) refl,
  )

  check_node_iff :
      (kind : NodeKind)
      → (check_node allowed_imports kind line column ≡ []) ↔ IsAllowedNode allowed_imports kind
  unfolding check_node check_import_from check_call check_attribute
  check_node_iff (import_names names) = check_imports_iff names
  check_node_iff (import_from zero none) = (λ h. refl, λ h. refl)
  check_node_iff (import_from (suc level) none) = (λ h. cc, λ h. cc)
  check_node_iff (import_from (suc level) (some name)) = (λ h. cc, λ h. let e = h.0 in cc)
  check_node_iff (import_from zero (some name)) = elim (Bool-cases (name == "")) [
    | inl empty ↦ (λ h. (refl, λ named. let e = sym empty ∙ named in cc), λ h. rw empty refl)
    | inr named ↦ (
      λ h. (refl, λ _. (check_import_iff name).0 (rw named at h)),
      λ h. rw named ((check_import_iff name).1 (h.1 named)),
    )
  ]
  check_node_iff (call none) = (λ h. tt, λ h. refl)
  check_node_iff (call (some name)) = add_if_iff (contains dangerous_calls name) _ line column _
  check_node_iff (attribute attr) = add_if_iff (is_dunder attr) _ line column _
  check_node_iff other = (λ h. tt, λ h. refl)

module _ (allowed_imports : List String) where
  -- Each node of a forest is an allowed one.
  abbrev pub IsClean : Nodes → Type 0
  IsClean nodes = (kind : NodeKind) → IsWithin nodes kind → IsAllowedNode allowed_imports kind

  nothing_within : IsClean done
  nothing_within kind w = elim w [ ]

  visit_iff : (nodes : Nodes) → (visit allowed_imports nodes ≡ []) ↔ IsClean nodes
  unfolding visit
  visit_iff done = (λ h. nothing_within, λ h. refl)
  visit_iff (node kind line column children siblings) = (
    λ h.
        let (own, more) = append_empty (check_node allowed_imports kind line column) _ h in
        let (inner, next) = append_empty (visit allowed_imports children) _ more in
        gathered (IsAllowedNode allowed_imports) kind line column children siblings
          ((check_node_iff allowed_imports line column kind).0 own) ((visit_iff children).0 inner)
          ((visit_iff siblings).0 next),
    λ clean.
        rw
          (
            (check_node_iff allowed_imports line column kind).1 (clean kind here),
            (visit_iff children).1 (λ k w. clean k (below w)),
            (visit_iff siblings).1 (λ k w. clean k (beside w)),
          )
          refl,
  )

  -- The scanner finds nothing in a source exactly when the source has a syntax tree in which each
  -- node, however deep, is allowed: an import only of the allowed roots and never a relative one,
  -- no call of a dangerous name, no attribute that starts with two underscores.
  pub scan-IsClean_iff :
      (parsed : Parsed)
      → (scan allowed_imports parsed ≡ [])
        ↔ ((nodes : Nodes) × (parsed ≡ tree nodes) × IsClean nodes)
  unfolding scan
  scan-IsClean_iff (tree nodes) = (
    λ h. (nodes, refl, (visit_iff nodes).0 h),
    λ h. (visit_iff nodes).1 (subst IsClean (sym (tree-injective h.1)) h.2),
  )
  scan-IsClean_iff (syntax_error line offset message) = (λ h. cc, λ h. let e = h.1 in cc)
