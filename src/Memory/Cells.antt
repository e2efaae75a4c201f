-- ===== src/Memory/Cells.antt =====
-- Lists of 32 zeroed cells, and the copying loops over them.
use ww.Prelude.{
  ℕ, zero, suc, ◌+◌, ◌<◌, ◌≤◌, ◌≡◌, ◌≢◌, ◌∙◌, refl, length, arith, ltb, ◌==◌, Bool-cases, inl, inr,
  if◌then◌else◌, List, [], ◌∷◌, get_elem?, some,
}

abbrev pub Cells {ℓ} : Type ℓ → Type ℓ
Cells A = ℕ → A

-- `list.Set(i, x)`
abbrev pub write {ℓ} : {A : Type ℓ} → Cells A → ℕ → A → Cells A
write c i x j = if i == j then x else c j

module _ {ℓ} {A : Type ℓ} where
  -- for i := 0; i < lim; i++ { to.Set(i, from.At(i)) }
  unfoldable pub copy : ℕ → Cells A → Cells A → Cells A
  copy zero from to = to
  copy (suc lim) from to = write (copy lim from to) lim (from lim)

  -- for i, x := range xs { to.Set(start + i, x) }
  unfoldable pub write_all : ℕ → List A → Cells A → Cells A
  write_all start [] to = to
  write_all start (x ∷ xs) to = write_all (suc start) xs (write to start x)

  pub copy_lem :
      (lim : ℕ) (from to : Cells A) (i : ℕ)
      → copy lim from to i ≡ (if ltb i lim then from i else to i)
  unfolding copy
  copy_lem zero from to i = ground arith
  copy_lem (suc lim) from to i = ground (arith, copy_lem lim from to i)

  pub copy_below : (lim : ℕ) (from to : Cells A) (i : ℕ) → i < lim → copy lim from to i ≡ from i
  copy_below lim from to i h = ground (arith, copy_lem lim from to i)

  pub write_all_below :
      (start : ℕ) (xs : List A) (to : Cells A) (i : ℕ) → i < start → write_all start xs to i ≡ to i
  unfolding write_all
  write_all_below start [] to i h = refl
  write_all_below start (x ∷ xs) to i h =
      ground (arith, write_all_below (suc start) xs (write to start x) i (omega arith))

  -- The cells that the loop has written hold the list.
  pub write_all_at :
      (start : ℕ) (xs : List A) (to : Cells A) (i : ℕ) (x : A)
      → get_elem? xs i ≡ some x
      → write_all start xs to (start + i) ≡ x
  unfolding write_all
  write_all_at start [] to i x h = ground arith
  write_all_at start (y ∷ xs) to zero x h =
      ground (arith, write_all_below (suc start) xs (write to start y) (start + 0))
  write_all_at start (y ∷ xs) to (suc i) x h =
      ground (arith, write_all_at (suc start) xs (write to start y) i x h)

module _ {ℓ} {A : Type ℓ} where
  pub write_self : (c : Cells A) (i : ℕ) (x : A) → write c i x i ≡ x
  write_self c i x = ground arith

  pub write_ne : (c : Cells A) (i j : ℕ) (x : A) → i ≢ j → write c i x j ≡ c j
  write_ne c i j x h = ground arith

  -- What holds of the new value and of every old cell holds of every cell after a write.
  pub write-all {κ} :
      (P : A → Type κ) (c : Cells A) (i : ℕ) (x : A)
      → P x
      → ((j : ℕ) → P (c j))
      → (j : ℕ) → P (write c i x j)
  write-all P c i x px pc j = elim (Bool-cases (i == j)) [ inl e ↦ rw e px | inr e ↦ rw e (pc j) ]

  pub copy-all {κ} :
      (P : A → Type κ) (lim : ℕ) (from to : Cells A)
      → ((j : ℕ) → P (from j))
      → ((j : ℕ) → P (to j))
      → (j : ℕ) → P (copy lim from to j)
  unfolding copy
  copy-all P zero from to pf pt j = pt j
  copy-all P (suc lim) from to pf pt j =
      write-all P (copy lim from to) lim (from lim) (pf lim) (copy-all P lim from to pf pt) j

  -- The cells behind what the loop writes keep what they had.
  pub write_all_above :
      (start : ℕ) (xs : List A) (to : Cells A) (i : ℕ)
      → start + length xs ≤ i
      → write_all start xs to i ≡ to i
  unfolding write_all
  write_all_above start [] to i h = refl
  write_all_above start (x ∷ xs) to i h =
      write_all_above (suc start) xs (write to start x) i (omega arith)
      ∙ write_ne to start i x (omega arith)
