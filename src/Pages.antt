-- ===== src/Pages.antt =====
-- The window of a sorted listing that datasets_service.go, tables_service.go, models_service.go and
-- routines_service.go return: start, size, and the start of the next page.
use loca_ql.Prelude.{
  ℕ, zero, suc, ◌+◌, ◌-◌, ◌<◌, ◌≤◌, ◌≡◌, refl, sym, ap, ◌∙◌, Option, none, some, List, [], ◌∷◌,
  ◌++◌, ltb, length, take, drop, arith, if◌then◌else◌,
}

-- start and end, cut to the length of the listing
unfoldable pub cut : ℕ → ℕ → ℕ
cut n i = if ltb n i then n else i

module _ {ℓ} {A : Type ℓ} where
  -- ids[start:end]
  unfoldable pub window : List A → ℕ → ℕ → List A
  unfolding cut
  window xs start size =
      let n = length xs in take (cut n (cut n start + size) - cut n start) (drop (cut n start) xs)

  -- -1 is none
  unfoldable pub next_start : List A → ℕ → ℕ → Option ℕ
  unfolding cut
  next_start xs start size =
      let n = length xs in
      let end = cut n (cut n start + size) in if ltb end n then some end else none

  take-drop : (k j : ℕ) (xs : List A) → take k xs ++ drop k xs ≡ xs
  take-drop zero j xs = refl
  take-drop (suc k) j [] = refl
  take-drop (suc k) j (x ∷ xs) = ap (λ ys. x ∷ ys) (take-drop k j xs)

  drop-nil : (k : ℕ) → ◌≡◌ {A = List A} (drop k []) []
  drop-nil zero = refl
  drop-nil (suc k) = refl

  drop-add : (i k : ℕ) (xs : List A) → drop (i + k) xs ≡ drop k (drop i xs)
  drop-add zero k xs = let z : 0 + k ≡ k = omega arith in ap (λ n. drop n xs) z
  drop-add (suc i) k [] = drop-nil (suc i + k) ∙ sym (drop-nil k)
  drop-add (suc i) k (x ∷ xs) =
      let z : suc i + k ≡ suc (i + k) = omega arith in ap (λ n. drop n (x ∷ xs)) z ∙ drop-add i k xs

  take-all : (k : ℕ) (xs : List A) → length xs ≤ k → take k xs ≡ xs
  take-all zero [] h = refl
  take-all zero (x ∷ xs) h = absurd (omega arith)
  take-all (suc k) [] h = refl
  take-all (suc k) (x ∷ xs) h = ap (λ ys. x ∷ ys) (take-all k xs (omega arith))

  length-drop : (k : ℕ) (xs : List A) → length (drop k xs) ≡ length xs - k
  length-drop zero xs = omega arith
  length-drop (suc k) [] = omega arith
  length-drop (suc k) (x ∷ xs) = omega (arith, length-drop k xs)

  -- The page before the last: it and the rest from the next start are the rest from its start.
  pub window-next :
      (xs : List A) (start size next : ℕ)
      → next_start xs start size ≡ some next
      → (window xs start size ++ drop next xs ≡ drop start xs)
        × (next ≡ start + size)
        × (next < length xs)
  unfolding window next_start cut
  window-next xs start size next e =
      let n = length xs in
      let at : (next ≡ start + size)
          × (next < n)
          × (cut n start ≡ start)
          × (cut n (start + size) ≡ start + size) =
        ground arith in
      let width : (start + size) - start ≡ size = omega arith in
      (
        rw (at.2, at.3, at.0, width, drop-add start size xs) (take-drop size 0 (drop start xs)),
        at.0,
        at.1,
      )

  pub window-last :
      (xs : List A) (start size : ℕ)
      → next_start xs start size ≡ none
      → window xs start size ≡ drop (cut (length xs) start) xs
  unfolding window next_start cut
  window-last xs start size e =
      let n = length xs in
      take-all (cut n (cut n start + size) - cut n start) (drop (cut n start) xs)
        (omega (arith, length-drop (cut n start) xs, fits))
    where
      fits :
          length xs - cut (length xs) start
          ≤ cut (length xs) (cut (length xs) start + size) - cut (length xs) start
      fits = ground arith
