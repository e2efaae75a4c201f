-- ===== src/Vector/Digits.antt =====
-- The digits that lead from the root of the trie to a leaf. The leaf of index `i` is number `i / 32`,
-- and its path is that number in base 32.
use native.Mathlib.Nat.{
  pow-suc, div-div-eq-div-mul, div-eq_of_lt, mul-div_cancel, mul-mod_left, one-le-pow,
  le-div_iff_mul-le, mul_comm, div-mul-le_self, le_trans,
}
use ww.Prelude.{ℕ, zero, suc, ◌+◌, ◌*◌, ◌/◌, ◌%◌, ◌^◌, ◌≤◌, ◌<◌, ◌≡◌, refl, sym, ap, ◌∙◌, arith}
use ww.Vector.Trie.{sub_index, level_down}

-- The digits above the lowest `d`.
abbrev pub prefix : ℕ → ℕ → ℕ
prefix d q = q / 32 ^ d

abbrev pub digit : ℕ → ℕ → ℕ
digit d q = prefix d q % 32

pub pow-pos : (d : ℕ) → 0 < 32 ^ d
pow-pos d = one-le-pow d 32 (omega arith)

pub two-pow-five : (d : ℕ) → 2 ^ (5 * d) ≡ 32 ^ d
two-pow-five zero = refl
two-pow-five (suc d) =
    let e : 5 * suc d ≡ suc (suc (suc (suc (suc (5 * d))))) = omega arith in
    rw e (simp pow-suc (omega (arith, two-pow-five d)))

pub prefix-suc : (d q : ℕ) → prefix (suc d) q ≡ prefix d q / 32
prefix-suc d q = rw pow-suc (sym (div-div-eq-div-mul q (32 ^ d) 32))

-- What the source computes at a level is a digit of the leaf's number.
pub sub_index-level : (d i : ℕ) → sub_index i (5 * suc d) ≡ digit d (i / 32)
sub_index-level d i =
    ap (λ (t : ℕ). t % 32)
      (ap (λ (t : ℕ). i / t) (two-pow-five (suc d) ∙ pow-suc 32 d ∙ mul_comm (32 ^ d) 32)
        ∙ sym (div-div-eq-div-mul i 32 (32 ^ d)))

-- A prefix is the next prefix and one digit.
pub prefix-digit : (d q : ℕ) → prefix d q ≡ 32 * prefix (suc d) q + digit d q
prefix-digit d q = omega (arith, prefix-suc d q)

pub prefix-zero : (q : ℕ) → prefix 0 q ≡ q
prefix-zero q = omega arith

pub prefix-below : (d q : ℕ) → q < 32 ^ d → prefix d q ≡ 0
prefix-below d q h = div-eq_of_lt h

pub prefix-multiple : (d m : ℕ) → prefix d (m * 32 ^ d) ≡ m
prefix-multiple d m = mul-div_cancel m (pow-pos d)

pub prefix_mono : (d q r : ℕ) → q ≤ r → prefix d q ≤ prefix d r
prefix_mono d q r h = (le-div_iff_mul-le (pow-pos d)).1 (le_trans (div-mul-le_self q (32 ^ d)) h)

pub pow-suc_shift : (d m : ℕ) → m * 32 ^ suc d ≡ m * 32 * 32 ^ d
pow-suc_shift d m = rw pow-suc (omega arith)

-- Number `m * 32 ^ suc d` has a zero digit at `d`.
pub digit-multiple : (d m : ℕ) → digit d (m * 32 ^ suc d) ≡ 0
digit-multiple d m = rw (pow-suc_shift d m, prefix-multiple d (m * 32)) (mul-mod_left m 32)

pub level_down-suc : (d : ℕ) → d < 50 → level_down (5 * suc d) ≡ 5 * d
level_down-suc d h = omega arith

pub prefix-same :
    (d q r : ℕ)
    → prefix (suc d) q ≡ prefix (suc d) r
    → digit d q ≡ digit d r
    → prefix d q ≡ prefix d r
prefix-same d q r e same = omega (arith, prefix-digit d q, prefix-digit d r)

pub prefix-split :
    (d q r : ℕ)
    → prefix d q ≡ prefix d r
    → (prefix (suc d) q ≡ prefix (suc d) r) × (digit d q ≡ digit d r)
prefix-split d q r e =
    (prefix-suc d q ∙ ap (λ (t : ℕ). t / 32) e ∙ sym (prefix-suc d r), ap (λ (t : ℕ). t % 32) e)

-- Two leaves of one trie have the same digits above it.
pub prefix-root : (d q r : ℕ) → q < 32 ^ d → r < 32 ^ d → prefix d q ≡ prefix d r
prefix-root d q r h k = prefix-below d q h ∙ sym (prefix-below d r k)
