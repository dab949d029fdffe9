-- ===== src/Connections/Sets.antt =====
-- Sets of descriptors as lists: FD_CLR, FD_ISSET, and the list of the TCP clients.
use shelter_server.Prelude.{
  ℕ, ◌+◌, ◌≤◌, length, ◌≡◌, refl, true, false, not, ◌&&◌, ◌||◌, List, [], ◌∷◌, ◌++◌, ◌==◌, arith,
}
use shelter_server.Clients.Array.{erase_first}
use shelter_server.TcpHandler.{has, fd_clear}

abbrev pub Within : List ℕ → List ℕ → Type 0
Within xs ys = (n : ℕ) → has n xs ≡ true → has n ys ≡ true

abbrev pub Distinct : List ℕ → Type 0
Distinct [] = Unit
Distinct (x ∷ xs) = (has x xs ≡ false) × Distinct xs

pub has-append : (n : ℕ) (xs ys : List ℕ) → has n (xs ++ ys) ≡ (has n xs || has n ys)
has-append n [] ys = refl
has-append n (x ∷ xs) ys = ground (arith, has-append n xs ys)

pub has-fd_clear : (n fd : ℕ) (xs : List ℕ) → has n (fd_clear fd xs) ≡ (not (n == fd) && has n xs)
unfolding fd_clear
has-fd_clear n fd [] = ground arith
has-fd_clear n fd (x ∷ xs) = ground (arith, has-fd_clear n fd xs)

pub fd_clear-append :
    (fd : ℕ) (xs ys : List ℕ) → fd_clear fd (xs ++ ys) ≡ fd_clear fd xs ++ fd_clear fd ys
unfolding fd_clear
fd_clear-append fd [] ys = refl
fd_clear-append fd (x ∷ xs) ys = ground (arith, fd_clear-append fd xs ys)

pub fd_clear_absent : (fd : ℕ) (xs : List ℕ) → has fd xs ≡ false → fd_clear fd xs ≡ xs
unfolding fd_clear
fd_clear_absent fd [] h = refl
fd_clear_absent fd (x ∷ xs) h = ground (arith, fd_clear_absent fd xs)

pub fd_clear_head : (fd : ℕ) (xs : List ℕ) → has fd xs ≡ false → fd_clear fd (fd ∷ xs) ≡ xs
unfolding fd_clear
fd_clear_head fd xs h = ground (arith, fd_clear_absent fd xs h)

pub Distinct-append :
    (fd : ℕ) (xs : List ℕ) → Distinct xs → has fd xs ≡ false → Distinct (xs ++ fd ∷ [])
Distinct-append fd [] d h = (refl, tt)
Distinct-append fd (x ∷ xs) d h =
    ground (arith, Distinct-append fd xs d.1, has-append x xs (fd ∷ []))

pub has-erase :
    (n fd : ℕ) (xs : List ℕ)
    → Distinct xs
    → has n (erase_first (λ x. x == fd) xs) ≡ (not (n == fd) && has n xs)
has-erase n fd [] d = ground arith
has-erase n fd (x ∷ xs) d = ground (arith, has-erase n fd xs d.1)

pub Distinct-erase : (fd : ℕ) (xs : List ℕ) → Distinct xs → Distinct (erase_first (λ x. x == fd) xs)
Distinct-erase fd [] d = tt
Distinct-erase fd (x ∷ xs) d = ground (arith, Distinct-erase fd xs d.1, has-erase x fd xs d.1)

has-erase_other :
    (n x : ℕ) (ys : List ℕ) → (n == x) ≡ false → has n (erase_first (λ y. y == x) ys) ≡ has n ys
has-erase_other n x [] h = refl
has-erase_other n x (y ∷ ys) h = ground (arith, has-erase_other n x ys h)

erase_Within :
    (x : ℕ) (xs ys : List ℕ)
    → has x xs ≡ false
    → Within xs ys
    → Within xs (erase_first (λ y. y == x) ys)
erase_Within x xs ys h w n m =
    let apart : (n == x) ≡ false = ground (arith, h, m) in rw (has-erase_other n x ys apart) (w n m)

length-erase :
    (x : ℕ) (ys : List ℕ) → has x ys ≡ true → length (erase_first (λ y. y == x) ys) + 1 ≡ length ys
length-erase x [] h = absurd cc
length-erase x (y ∷ ys) h = ground (arith, length-erase x ys)

-- Distinct items of a list are no more than its items.
pub length-Within : (xs ys : List ℕ) → Distinct xs → Within xs ys → length xs ≤ length ys
length-Within [] ys d w = omega arith
length-Within (x ∷ xs) ys d w =
    let e : length (erase_first (λ y. y == x) ys) + 1 ≡ length ys =
      length-erase x ys (w x (ground arith)) in
    let rest : length xs ≤ length (erase_first (λ y. y == x) ys) =
      length-Within xs (erase_first (λ y. y == x) ys) d.1
        (erase_Within x xs ys d.0 (λ n m. w n (ground arith))) in
    omega arith
