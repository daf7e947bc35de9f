-- ===== src/Bytes/Records.antt =====
-- Records of one kind, written one behind the other and read back by their number.
use mathlib.Core.List.{append_assoc}
use corefs.Common.{
  ℕ, zero, suc, ◌-◌, ◌*◌, ◌≤◌, ◌≡◌, refl, ◌∙◌, List, [], ◌∷◌, ◌++◌, length, length-append, arith,
}
use corefs.Bytes.{take, drop}
use corefs.Bytes.Reader.{Reader, ◌>>=◌, pure}

module _ {A : Type 0} where
  unfoldable pub write_each : (A → List ℕ) → List A → List ℕ
  write_each write [] = []
  write_each write (x ∷ xs) = write x ++ write_each write xs

  unfoldable pub read_each : Reader A → ℕ → Reader (List A)
  read_each read zero = pure []
  read_each read (suc n) = do x ← read; xs ← read_each read n; pure (x ∷ xs)

  -- Every member of a list
  abbrev pub All : (A → Type 0) → List A → Type 0
  All P [] = Unit
  All P (x ∷ xs) = P x × All P xs

  pub length-drop : (n : ℕ) (xs : List A) → length (drop n xs) ≡ length xs - n
  unfolding drop
  length-drop zero xs = omega arith
  length-drop (suc n) [] = omega arith
  length-drop (suc n) (x ∷ xs) = length-drop n xs ∙ omega arith

  pub length-take_le : (n : ℕ) (xs : List A) → length (take n xs) ≤ n
  unfolding take
  length-take_le zero xs = omega arith
  length-take_le (suc n) [] = omega arith
  length-take_le (suc n) (x ∷ xs) = omega (arith, length-take_le n xs)

  pub drop-past : (n : ℕ) (xs : List A) → length xs ≤ n → drop n xs ≡ []
  unfolding drop
  drop-past zero [] h = refl
  drop-past zero (x ∷ xs) h = absurd (omega (arith, h))
  drop-past (suc n) [] h = refl
  drop-past (suc n) (x ∷ xs) h = drop-past n xs (omega (arith, h))

  pub All-take : (P : A → Type 0) (n : ℕ) (xs : List A) → All P xs → All P (take n xs)
  unfolding take
  All-take P zero xs h = tt
  All-take P (suc n) [] h = h
  All-take P (suc n) (x ∷ xs) h = (h.0, All-take P n xs h.1)

  pub All-drop : (P : A → Type 0) (n : ℕ) (xs : List A) → All P xs → All P (drop n xs)
  unfolding drop
  All-drop P zero xs h = h
  All-drop P (suc n) [] h = h
  All-drop P (suc n) (x ∷ xs) h = All-drop P n xs h.1

  module _ (write : A → List ℕ) where
    pub length-write_each :
        (size : ℕ) (xs : List A)
        → ((x : A) → length (write x) ≡ size)
        → length (write_each write xs) ≡ length xs * size
    unfolding write_each
    length-write_each size [] sized = omega arith
    length-write_each size (x ∷ xs) sized =
        length-append (write x) (write_each write xs)
        ∙ ground (arith, sized x, length-write_each size xs sized)

    pub read_each-write_each :
        (read : Reader A) (P : A → Type 0)
        → ((x : A) (rest : List ℕ) → P x → read (write x ++ rest) ≡ (x, rest))
        → (xs : List A) (rest : List ℕ) → All P xs
        → read_each read (length xs) (write_each write xs ++ rest) ≡ (xs, rest)
    unfolding read_each write_each
    read_each-write_each read P one [] rest h = refl
    read_each-write_each read P one (x ∷ xs) rest h =
        rw (append_assoc (write x) (write_each write xs) rest) rw
          (one x (write_each write xs ++ rest) h.0) rw (read_each-write_each read P one xs rest h.1)
          refl
