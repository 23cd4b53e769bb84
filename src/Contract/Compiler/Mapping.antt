-- ===== src/Contract/Compiler/Mapping.antt =====
-- src/psrc/contract/compiler.py: what a mapping of `_symbol_mapping` does to the symbols.
use strategy_adapter.Prelude.{
  String, ◌≡◌, ◌⊎◌, inl, inr, Bool, true, false, not, ◌&&◌, Option, none, some, List, [], ◌∷◌, All,
  contains, distinct, difference, nonempty, subset, keep_if, arith, string_eq, Bool-cases, subst,
}
use strategy_adapter.Contract.Models.{Json, JsonFields, DatasetStream, RunPolicy}
use strategy_adapter.Contract.Models.Values.{null, boolean, number, text, array, object, end, field}
use strategy_adapter.Contract.Compiler.Symbols.{
  Mapping, symbol_mapping, checked_mapping, raw_mapping, usable_entries, is_reversible, targets,
}

abbrev pub Applies : List String → List String → String × String → Type 0
Applies symbols required e = (contains symbols e.0 ≡ true) × (contains required e.1 ≡ true)

pub record IsReversible (symbols required : List String) (m : Mapping) : Type 0 where
  pub applies : All (Applies symbols required) m
  pub one_to_one : distinct (targets m) ≡ true
  pub no_collision : All (λ t. contains symbols t ≡ false) (targets m)
  pub covers : All (λ s. (contains symbols s ≡ true) ⊎ (contains (targets m) s ≡ true)) required

three_true : (a b c : Bool) → (a && not b && c) ≡ true → (a ≡ true) × (b ≡ false) × (c ≡ true)
three_true a b c h = (ground arith, ground arith, ground arith)

same_mapping : {n m : Mapping} → ◌≡◌ {A = Option Mapping} (some n) (some m) → n ≡ m
same_mapping h = cc

nothing : {m : Mapping} → ◌≡◌ {A = Option Mapping} none (some m) → ⊥
nothing h = cc

module _ (symbols required : List String) where
  usable_entries_apply :
      (fields : JsonFields)
      → All (Applies symbols required) (usable_entries symbols required fields)
  unfolding usable_entries
  usable_entries_apply end = tt
  usable_entries_apply (field k (text t) fields) =
      elim (Bool-cases (contains symbols k && contains required t)) [
        | inl usable ↦ rw usable (ground arith, usable_entries_apply fields)
        | inr unusable ↦ rw unusable (usable_entries_apply fields)
      ]
  usable_entries_apply (field k _ fields) = usable_entries_apply fields

  none_kept :
      (ts : List String)
      → nonempty (keep_if (λ t. contains symbols t) ts) ≡ false
      → All (λ t. contains symbols t ≡ false) ts
  none_kept [] h = tt
  none_kept (t ∷ ts) h = ground (arith, none_kept ts)

  covered :
      (rs ts : List String)
      → subset (difference rs symbols) ts ≡ true
      → All (λ s. (contains symbols s ≡ true) ⊎ (contains ts s ≡ true)) rs
  covered [] ts h = tt
  covered (r ∷ rs) ts h = ground (arith, covered rs ts)

  checked_mapping-IsReversible :
      (raw : Option Json) (m : Mapping)
      → checked_mapping symbols required raw ≡ some m
      → IsReversible symbols required m
  unfolding checked_mapping
  checked_mapping-IsReversible (some (object (field k v fields))) m e =
      let found = usable_entries symbols required (field k v fields) in
      elim (Bool-cases (is_reversible symbols required found)) [
        | inl good ↦
            let (one_to_one, collision, covering) =
              three_true (distinct (targets found))
                (nonempty (keep_if (λ t. contains symbols t) (targets found)))
                (subset (difference required symbols) (targets found)) good in
            subst (IsReversible symbols required) (same_mapping (rw good at e)) (record {
              applies = usable_entries_apply (field k v fields);
              one_to_one = one_to_one;
              no_collision = none_kept (targets found) collision;
              covers = covered required (targets found) covering;
            })
        | inr bad ↦ absurd (nothing (rw bad at e))
      ]
  checked_mapping-IsReversible (some (object end)) m e = cc
  checked_mapping-IsReversible (some null) m e = cc
  checked_mapping-IsReversible (some (boolean b)) m e = cc
  checked_mapping-IsReversible (some (number d)) m e = cc
  checked_mapping-IsReversible (some (text t)) m e = cc
  checked_mapping-IsReversible (some (array xs)) m e = cc
  checked_mapping-IsReversible none m e = cc

-- A mapping that `_symbol_mapping` returns takes symbols of the stream to required ones, one to one;
-- it maps to no symbol that the stream already has, and covers each required symbol that it lacks.
pub symbol_mapping-IsReversible :
    (stream : DatasetStream) (required : List String) (policy : RunPolicy) (m : Mapping)
    → symbol_mapping stream required policy ≡ some m
    → IsReversible stream.symbols required m
unfolding symbol_mapping
symbol_mapping-IsReversible stream required policy m e =
    elim (Bool-cases (contains policy.allowed_transformations "symbol.map.v1")) [
      | inl allowed ↦
          checked_mapping-IsReversible stream.symbols required (raw_mapping policy "symbol.map.v1")
            m (rw allowed at e)
      | inr denied ↦ absurd (nothing (rw denied at e))
    ]
