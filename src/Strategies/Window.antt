-- ===== src/Strategies/Window.antt =====
-- `collections.deque(maxlen=n)`, the window of values that a strategy keeps, oldest first.
use strategy_adapter.Prelude.{
  ℕ, zero, suc, ◌+◌, ◌-◌, ◌≤◌, ◌≡◌, refl, ap, sym, ◌∙◌, List, [], ◌∷◌, ◌++◌, length, length-append,
  arith,
}

module _ {ℓ} {A : Type ℓ} where
  abbrev pub drop : ℕ → List A → List A
  drop zero xs = xs
  drop (suc n) [] = []
  drop (suc n) (x ∷ xs) = drop n xs

  -- `xs[-n:]`, for an `n` of 1 or more
  unfoldable pub take_last : ℕ → List A → List A
  take_last n xs = drop (length xs - n) xs

  -- `window.append(x)`: above `maxlen` elements the oldest one goes
  unfoldable pub append : ℕ → List A → A → List A
  append maxlen xs x = drop (length xs + 1 - maxlen) (xs ++ x ∷ [])

  pub length-drop : (n : ℕ) (xs : List A) → length (drop n xs) ≡ length xs - n
  length-drop zero xs = omega arith
  length-drop (suc n) [] = omega arith
  length-drop (suc n) (x ∷ xs) = omega (arith, length-drop n xs)

  drop-append : (n : ℕ) (xs ys : List A) → n ≤ length xs → drop n (xs ++ ys) ≡ drop n xs ++ ys
  drop-append zero xs ys h = refl
  drop-append (suc n) [] ys h = ground arith
  drop-append (suc n) (x ∷ xs) ys h = drop-append n xs ys (omega arith)

  drop-nil : (n : ℕ) → drop n [] ≡ []
  drop-nil zero = refl
  drop-nil (suc n) = refl

  drop-drop : (n m : ℕ) (xs : List A) → drop n (drop m xs) ≡ drop (m + n) xs
  drop-drop n zero xs = ap (λ (k : ℕ). drop k xs) (omega arith)
  drop-drop n (suc m) [] = drop-nil n ∙ sym (drop-nil (suc m + n))
  drop-drop n (suc m) (x ∷ xs) =
      drop-drop n m xs
      ∙ ap (λ (k : ℕ). drop k (x ∷ xs)) (let e : suc (m + n) ≡ suc m + n = omega arith in e)

  pub take_last-nil : (n : ℕ) → take_last n [] ≡ []
  unfolding take_last
  take_last-nil n = drop-nil (0 - n)

  pub length-take_last : (n : ℕ) (xs : List A) → n ≤ length xs → length (take_last n xs) ≡ n
  unfolding take_last
  length-take_last n xs h = omega (arith, length-drop (length xs - n) xs)

  -- below `maxlen` elements the window grows, at `maxlen` it keeps its length
  pub length-window :
      (maxlen : ℕ) (xs : List A) (x : A)
      → length (append maxlen xs x) ≡ length xs + 1 - (length xs + 1 - maxlen)
  unfolding append
  length-window maxlen xs x =
      omega (arith, length-drop (length xs + 1 - maxlen) (xs ++ x ∷ []), length-append xs (x ∷ []))

  -- A window of the last `n` elements stays one.
  pub append-take_last :
      (n : ℕ) (xs : List A) (x : A) → append n (take_last n xs) x ≡ take_last n (xs ++ x ∷ [])
  unfolding append take_last
  append-take_last n xs x =
      ap (drop _) (sym (drop-append (length xs - n) xs (x ∷ []) (omega arith)))
      ∙ drop-drop _ (length xs - n) (xs ++ x ∷ [])
      ∙ ap (λ k. drop k (xs ++ x ∷ []))
          (omega (arith, length-drop (length xs - n) xs, length-append xs (x ∷ [])))
