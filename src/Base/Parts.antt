-- ===== src/Base/Parts.antt =====
-- Parts of a list by their positions: single elements, front parts and what follows them.
use mathlib.Core.List.{append_assoc}
use mathlib.Core.Path.{subst}
use kblocker.Base.{
  ℕ, zero, suc, ◌+◌, ◌≤◌, ◌<◌, ◌≡◌, refl, sym, ap, ◌∙◌, Option, none, some, List, [], ◌∷◌, ◌++◌,
  arith, length, length-append, take, drop,
}

module _ {ℓ} {A : Type ℓ} where
  abbrev pub get_elem? : List A → ℕ → Option A
  get_elem? [] i = none
  get_elem? (x ∷ xs) zero = some x
  get_elem? (x ∷ xs) (suc i) = get_elem? xs i

  pub get_elem?-lt : (xs : List A) (i : ℕ) → i < length xs → (a : A) × (get_elem? xs i ≡ some a)
  get_elem?-lt [] i h = absurd (omega arith)
  get_elem?-lt (x ∷ xs) zero h = (x, refl)
  get_elem?-lt (x ∷ xs) (suc i) h = get_elem?-lt xs i (omega arith)

  pub take-append-drop : (n : ℕ) (xs : List A) → take n xs ++ drop n xs ≡ xs
  take-append-drop zero xs = refl
  take-append-drop (suc n) [] = refl
  take-append-drop (suc n) (x ∷ xs) = ap (λ t. x ∷ t) (take-append-drop n xs)

  pub take-suc :
      (n : ℕ) (xs : List A) (a : A)
      → get_elem? xs n ≡ some a
      → take (suc n) xs ≡ take n xs ++ (a ∷ [])
  take-suc n [] a h = absurd (cc)
  take-suc zero (x ∷ xs) a h = cc
  take-suc (suc n) (x ∷ xs) a h = ap (λ t. x ∷ t) (take-suc n xs a h)

  pub take-append : (xs ys : List A) → take (length xs) (xs ++ ys) ≡ xs
  take-append [] ys = refl
  take-append (x ∷ xs) ys = ap (λ t. x ∷ t) (take-append xs ys)

  pub take_all : (n : ℕ) (xs : List A) → length xs ≤ n → take n xs ≡ xs
  take_all zero [] h = refl
  take_all zero (x ∷ xs) h = absurd (omega arith)
  take_all (suc n) [] h = refl
  take_all (suc n) (x ∷ xs) h = ap (λ t. x ∷ t) (take_all n xs (omega arith))

  pub drop-append : (xs ys : List A) → drop (length xs) (xs ++ ys) ≡ ys
  drop-append [] ys = refl
  drop-append (x ∷ xs) ys = drop-append xs ys

  pub get_elem?-append : (xs ys : List A) (a : A) → get_elem? (xs ++ (a ∷ ys)) (length xs) ≡ some a
  get_elem?-append [] ys a = refl
  get_elem?-append (x ∷ xs) ys a = get_elem?-append xs ys a

  pub length-take : (n : ℕ) (xs : List A) → n ≤ length xs → length (take n xs) ≡ n
  length-take zero xs h = refl
  length-take (suc n) [] h = absurd (omega arith)
  length-take (suc n) (x ∷ xs) h = omega (arith, length-take n xs (omega arith))

  pub length-drop : (n : ℕ) (xs : List A) → n ≤ length xs → length (drop n xs) + n ≡ length xs
  length-drop zero xs h = omega arith
  length-drop (suc n) [] h = absurd (omega arith)
  length-drop (suc n) (x ∷ xs) h = omega (arith, length-drop n xs (omega arith))

  -- From `off` on, the list is `tail`.
  pub record At (xs : List A) (off : ℕ) (tail : List A) : Type ℓ where
    pub front : List A
    pub whole : xs ≡ front ++ tail
    pub place : length front ≡ off

  pub At-start : (xs : List A) → At xs 0 xs
  At-start xs = record { front = []; whole = refl; place = refl }

  pub At-get_elem? :
      (xs : List A) (off : ℕ) (a : A) (tail : List A)
      → At xs off (a ∷ tail)
      → get_elem? xs off ≡ some a
  At-get_elem? xs off a tail h = rw (h.whole, ← h.place) (get_elem?-append h.front tail a)

  pub At-drop : (xs : List A) (off : ℕ) (tail : List A) → At xs off tail → drop off xs ≡ tail
  At-drop xs off tail h = rw (h.whole, ← h.place) (drop-append h.front tail)

  pub At-length :
      (xs : List A) (off : ℕ) (tail : List A) → At xs off tail → length xs ≡ off + length tail
  At-length xs off tail h = rw h.whole (omega (arith, length-append h.front tail, h.place))

  -- What comes after a part.
  pub At-append :
      (xs : List A) (off : ℕ) (part tail : List A)
      → At xs off (part ++ tail)
      → At xs (off + length part) tail
  At-append xs off part tail h = record {
    front = h.front ++ part;
    whole = h.whole ∙ sym (append_assoc h.front part tail);
    place = omega (arith, length-append h.front part, h.place);
  }

  pub At-shift :
      (xs : List A) (off n : ℕ) (part tail : List A)
      → At xs off (part ++ tail)
      → off + length part ≡ n
      → At xs n tail
  At-shift xs off n part tail h e = subst (λ m. At xs m tail) e (At-append xs off part tail h)
