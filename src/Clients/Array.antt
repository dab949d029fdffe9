-- ===== src/Clients/Array.antt =====
-- The loops over the two client arrays of src/server/server.c: the search for a client and the
-- shift of the clients behind it (remove_tcp_client, remove_udp_client).
use shelter_server.Prelude.{
  ℕ, zero, suc, ◌+◌, ◌-◌, ◌<◌, ◌≤◌, ◌≡◌, refl, sym, ap, ◌∙◌, Bool, true, false, List, [], ◌∷◌,
  Option, none, some, arith, if◌then◌else◌, set, get_or, take, length, length-set, Bool-cases, inl,
  inr,
}
use mathlib.Core.Option

module _ {ℓ} {A : Type ℓ} (d : A) where
  -- `for (; i < num_clients - 1; ++i) a[i] = a[i + 1]`, with `left` rounds to go.
  unfoldable pub shift_left : ℕ → ℕ → List A → List A
  shift_left zero i xs = xs
  shift_left (suc left) i xs = shift_left left (suc i) (set xs i (get_or xs (suc i) d))

  -- `for (i = 0; i < num_clients; ++i) if (hit(a[i]))`, with `left` rounds to go.
  unfoldable pub find_index : (A → Bool) → ℕ → ℕ → List A → Option ℕ
  find_index p zero i xs = none
  find_index p (suc left) i xs =
      let rest = find_index p left (suc i) xs in if p (get_or xs i d) then some i else rest

-- A list without its first item that passes the test.
module _ {ℓ} {A : Type ℓ} where
  abbrev pub erase_first : (A → Bool) → List A → List A
  erase_first p [] = []
  erase_first p (x ∷ xs) = if p x then xs else x ∷ erase_first p xs

  abbrev pub erase_at : ℕ → List A → List A
  erase_at i [] = []
  erase_at zero (x ∷ xs) = xs
  erase_at (suc i) (x ∷ xs) = x ∷ erase_at i xs

  abbrev pub any : (A → Bool) → List A → Bool
  any p [] = false
  any p (x ∷ xs) = if p x then true else any p xs

module _ {ℓ} {A : Type ℓ} (d : A) where
  shift_left-cons :
      (k i : ℕ) (x : A) (xs : List A) → shift_left d k (suc i) (x ∷ xs) ≡ x ∷ shift_left d k i xs
  unfolding shift_left
  shift_left-cons zero i x xs = refl
  shift_left-cons (suc k) i x xs = shift_left-cons k (suc i) x (set xs i (get_or xs (suc i) d))

  take-shift_left_zero :
      (k : ℕ) (x : A) (xs : List A) → k ≤ length xs → take k (shift_left d k 0 (x ∷ xs)) ≡ take k xs
  unfolding shift_left
  take-shift_left_zero zero x xs h = refl
  take-shift_left_zero (suc k) x [] h = absurd (omega arith)
  take-shift_left_zero (suc k) x (y ∷ ys) h =
      rw (shift_left-cons k 0 y (y ∷ ys)) (ap (◌∷◌ y) (take-shift_left_zero k y ys (omega arith)))

  pub take-shift_left :
      (i k : ℕ) (xs : List A)
      → i + k < length xs
      → take (i + k) (shift_left d k i xs) ≡ erase_at i (take (suc (i + k)) xs)
  take-shift_left i k [] h = absurd (omega arith)
  take-shift_left zero k (x ∷ xs) h =
      let e : 0 + k ≡ k = omega arith in rw e (take-shift_left_zero k x xs (omega arith))
  take-shift_left (suc i) k (x ∷ xs) h =
      let e : suc i + k ≡ suc (i + k) = omega arith in
      rw (e, shift_left-cons k i x xs) (ap (◌∷◌ x) (take-shift_left i k xs (omega arith)))

  pub length-shift_left : (k i : ℕ) (xs : List A) → length (shift_left d k i xs) ≡ length xs
  unfolding shift_left
  length-shift_left zero i xs = refl
  length-shift_left (suc k) i xs = omega (
    arith,
    length-shift_left k (suc i) (set xs i (get_or xs (suc i) d)),
    length-set xs i (get_or xs (suc i) d),
  )

  find_index-cons :
      (p : A → Bool) (k i : ℕ) (x : A) (xs : List A)
      → find_index d p k (suc i) (x ∷ xs) ≡ Option.map suc (find_index d p k i xs)
  unfolding find_index
  find_index-cons p zero i x xs = refl
  find_index-cons p (suc k) i x xs = ground (arith, find_index-cons p k (suc i) x xs)

  -- What the search finds among the first `k` items: the item to erase, or nothing to erase.
  abbrev pub Found : (A → Bool) → List A → Option ℕ → Type ℓ
  Found p xs none = (erase_first p xs ≡ xs) × (any p xs ≡ false)
  Found p xs (some i) = (i < length xs) × (erase_at i xs ≡ erase_first p xs) × (any p xs ≡ true)

  Found-cons :
      (p : A → Bool) (x : A) (xs : List A) (o : Option ℕ)
      → p x ≡ false
      → Found p xs o
      → Found p (x ∷ xs) (Option.map suc o)
  Found-cons p x xs none e h = rw e (ap (◌∷◌ x) h.0, h.1)
  Found-cons p x xs (some i) e h = rw e (omega arith, ap (◌∷◌ x) h.1, h.2)

  Found-head : (p : A → Bool) (x : A) (xs : List A) → p x ≡ true → Found p (x ∷ xs) (some 0)
  Found-head p x xs e = rw e (omega arith, refl, refl)

  pub find_index-Found :
      (p : A → Bool) (k : ℕ) (xs : List A)
      → k ≤ length xs
      → Found p (take k xs) (find_index d p k 0 xs)
  unfolding find_index
  find_index-Found p zero xs h = (refl, refl)
  find_index-Found p (suc k) [] h = absurd (omega arith)
  find_index-Found p (suc k) (x ∷ xs) h = elim (Bool-cases (p x)) [
    | inl e ↦ rw e (Found-head p x (take k xs) e)
    | inr e ↦ rw e (
        rw (find_index-cons p k 0 x xs)
          (Found-cons p x (take k xs) _ e (find_index-Found p k xs (omega arith))))
  ]

  -- The shift from `i` on takes item `i` out of the first `n`.
  pub take-shift_left_pred :
      (i n : ℕ) (xs : List A)
      → i < n
      → n ≤ length xs
      → take (n - 1) (shift_left d (n - 1 - i) i xs) ≡ erase_at i (take n xs)
  take-shift_left_pred i n xs h k =
      let e : n ≡ suc (i + (n - 1 - i)) = omega arith in
      let e' : n - 1 ≡ i + (n - 1 - i) = omega arith in
      ap (λ m. take m (shift_left d (n - 1 - i) i xs)) e'
      ∙ take-shift_left i (n - 1 - i) xs (omega arith)
      ∙ ap (λ m. erase_at i (take m xs)) (sym e)
