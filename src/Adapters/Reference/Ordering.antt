-- ===== src/Adapters/Reference/Ordering.antt =====
-- src/psrc/adapters/reference.py: which event sequences `_validate_events` lets through.
use strategy_adapter.Prelude.{
  ◌≡◌, ◌≢◌, ◌↔◌, refl, ap, ◌∙◌, sym, subst, Bool, true, false, not, ◌||◌, List, [], ◌∷◌, map, ok,
  arith, Bool-cases, inl, inr, contains, distinct,
}
use strategy_adapter.Contract.Models.{ExecutionPlan, StrategyManifest}
use strategy_adapter.Domain.Market.{MarketEvent}
use strategy_adapter.Adapters.Reference.Events.{
  Key, key_of, key_ltb, key_eq, key_beq, key_beq_iff, insert_key, sort_keys, keys_beq,
  validate_events,
}

-- Every key is smaller than the next one.
abbrev pub IsIncreasing : List Key → Type 0
IsIncreasing [] = Unit
IsIncreasing (k ∷ []) = Unit
IsIncreasing (k ∷ j ∷ js) = (key_ltb k j ≡ true) × IsIncreasing (j ∷ js)

abbrev HeadFrom : Key → List Key → Type 0
HeadFrom k [] = Unit
HeadFrom k (j ∷ js) = key_ltb j k ≡ false

abbrev IsSorted : List Key → Type 0
IsSorted [] = Unit
IsSorted (k ∷ ks) = HeadFrom k ks × IsSorted ks

key_ltb-asym : (a b : Key) → key_ltb a b ≡ true → key_ltb b a ≡ false
key_ltb-asym a b h = ground arith

key_ltb-strict : (a b : Key) → key_ltb b a ≡ false → key_beq a b ≡ false → key_ltb a b ≡ true
key_ltb-strict a b h n = ground arith

key_ltb_trans : (a b c : Key) → key_ltb a b ≡ true → key_ltb b c ≡ true → key_ltb a c ≡ true
key_ltb_trans a b c h g = ground arith

key_ltb-apart : (a b : Key) → key_ltb a b ≡ true → key_beq a b ≡ false
key_ltb-apart a b h = ground arith

insert_key-HeadFrom :
    (j k : Key) (js : List Key) → key_ltb k j ≡ false → HeadFrom j js → HeadFrom j (insert_key k js)
unfolding insert_key
insert_key-HeadFrom j k [] h g = h
insert_key-HeadFrom j k (i ∷ js) h g = elim (Bool-cases (key_ltb i k)) [
  | inl t ↦ rw t g
  | inr f ↦ rw f h
]

insert_key-IsSorted : (k : Key) (js : List Key) → IsSorted js → IsSorted (insert_key k js)
unfolding insert_key
insert_key-IsSorted k [] s = (tt, tt)
insert_key-IsSorted k (j ∷ js) s = elim (Bool-cases (key_ltb j k)) [
  | inl t ↦ rw t (insert_key-HeadFrom j k js (key_ltb-asym j k t) s.0, insert_key-IsSorted k js s.1)
  | inr f ↦ rw f (f, s)
]

sort_keys-IsSorted : (ks : List Key) → IsSorted (sort_keys ks)
unfolding sort_keys
sort_keys-IsSorted [] = tt
sort_keys-IsSorted (k ∷ ks) = insert_key-IsSorted k (sort_keys ks) (sort_keys-IsSorted ks)

keys_beq-eq : (ks js : List Key) → keys_beq ks js ≡ true → ks ≡ js
unfolding keys_beq
keys_beq-eq [] [] h = refl
keys_beq-eq (k ∷ ks) [] h = cc
keys_beq-eq [] (j ∷ js) h = cc
keys_beq-eq (k ∷ ks) (j ∷ js) h = elim (Bool-cases (key_beq k j)) [
  | inl t ↦ let rest = keys_beq-eq ks js (rw t at h) in rw ((key_beq_iff k j).0 t, rest) refl
  | inr f ↦ let g = rw f at h in cc
]

keys_beq_refl : (ks : List Key) → keys_beq ks ks ≡ true
unfolding keys_beq
keys_beq_refl [] = refl
keys_beq_refl (k ∷ ks) = rw ((key_beq_iff k k).1 refl, keys_beq_refl ks) refl

sorted-IsIncreasing : (ks : List Key) → IsSorted ks → distinct ks ≡ true → IsIncreasing ks
sorted-IsIncreasing [] s d = tt
sorted-IsIncreasing (k ∷ []) s d = tt
sorted-IsIncreasing (k ∷ j ∷ js) s d = elim (Bool-cases (key_beq k j)) [
  | inl t ↦ let f = rw t at d in cc
  | inr f ↦ elim (Bool-cases (contains js k)) [
    | inl t ↦ let g = rw (f, t) at d in cc
    | inr absent ↦
        (key_ltb-strict k j s.0 f, sorted-IsIncreasing (j ∷ js) s.1 (rw (f, absent) at d))
  ]
]

increasing-absent : (k : Key) (js : List Key) → IsIncreasing (k ∷ js) → contains js k ≡ false
increasing-absent k [] h = refl
increasing-absent k (j ∷ []) h = rw (key_ltb-apart k j h.0) refl
increasing-absent k (j ∷ i ∷ js) h =
    rw (key_ltb-apart k j h.0) (increasing-absent k (i ∷ js) (key_ltb_trans k j i h.0 h.1.0, h.1.1))

IsIncreasing-tail : (k : Key) (js : List Key) → IsIncreasing (k ∷ js) → IsIncreasing js
IsIncreasing-tail k [] h = tt
IsIncreasing-tail k (j ∷ js) h = h.1

increasing-distinct : (ks : List Key) → IsIncreasing ks → distinct ks ≡ true
increasing-distinct [] h = refl
increasing-distinct (k ∷ ks) h =
    rw (increasing-absent k ks h, increasing-distinct ks (IsIncreasing-tail k ks h)) refl

insert_key-first : (k : Key) (js : List Key) → IsIncreasing (k ∷ js) → insert_key k js ≡ k ∷ js
unfolding insert_key
insert_key-first k [] h = refl
insert_key-first k (j ∷ js) h = rw (key_ltb-asym k j h.0) refl

sort_keys-increasing : (ks : List Key) → IsIncreasing ks → sort_keys ks ≡ ks
unfolding sort_keys
sort_keys-increasing [] h = refl
sort_keys-increasing (k ∷ ks) h =
    ap (insert_key k) (sort_keys-increasing ks (IsIncreasing-tail k ks h)) ∙ insert_key-first k ks h

-- the test that raises
abbrev refused : List Key → Bool
refused ks = not (keys_beq ks (sort_keys ks)) || not (distinct ks)

refused_iff : (ks : List Key) → (refused ks ≡ false) ↔ IsIncreasing ks
refused_iff ks = (
  λ h. elim (Bool-cases (keys_beq ks (sort_keys ks))) [
    | inl t ↦ elim (Bool-cases (distinct ks)) [
      | inl d ↦
          sorted-IsIncreasing ks
            (subst IsSorted (sym (keys_beq-eq ks (sort_keys ks) t)) (sort_keys-IsSorted ks)) d
      | inr f ↦ let g = rw (t, f) at h in cc
    ]
    | inr f ↦ let g = rw f at h in cc
  ],
  λ h.
      let same : keys_beq ks (sort_keys ks) ≡ true =
        ap (keys_beq ks) (sort_keys-increasing ks h) ∙ keys_beq_refl ks in
      rw (same, increasing-distinct ks h) refl,
)

-- The engine accepts a sequence of events exactly when it is not empty and their keys (available
-- time, then sequence) grow strictly.
pub validate_events_iff :
    (plan : ExecutionPlan) (manifest : StrategyManifest) (events : List MarketEvent)
    → (validate_events plan manifest events ≡ ok tt)
      ↔ ((events ≢ []) × IsIncreasing (map key_of events))
unfolding validate_events
validate_events_iff plan manifest [] = (λ h. cc, λ h. absurd (h.0 refl))
validate_events_iff plan manifest (event ∷ events) =
    let keys = map key_of (event ∷ events) in
    (
      λ h. elim (Bool-cases (refused keys)) [
        | inl t ↦ let f = rw (t, validate_events) at h in cc
        | inr f ↦ (λ e. cc, (refused_iff keys).0 f)
      ],
      λ h. rw ((refused_iff keys).1 h.1) refl,
    )
