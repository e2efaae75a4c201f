-- ===== src/Seq/Chunks.antt =====
-- The steps of chunkedSeq (pkg/lang/core/vector.go), over a vector whose arrays have the values of a
-- list.
use native.Mathlib.Decide.{dec_lt, dec_le}
use ww.Prelude.{
  ℕ, suc, ◌+◌, ◌-◌, ◌*◌, ◌/◌, ◌%◌, ◌^◌, ◌≤◌, ◌<◌, ◌≡◌, refl, ap, arith, List, length, get_elem?,
  get_elem?-lt, none, some, ok, Ensures, lt→ltb, le→ltb, le→leb, lt→leb, ne→eq,
}
use ww.Vector.Trie.{vector_tailoff}
use ww.Vector.Data.{Raw, api_vector_array_for}
use ww.Seq.Data.{
  new_chunked_seq, chunk_count, chunk_first, chunk_next, chunked_next, node_len, node_at,
}

pub vector_tailoff_lem : (cnt : ℕ) → 1 ≤ cnt → vector_tailoff cnt ≡ 32 * ((cnt - 1) / 32)
unfolding vector_tailoff
vector_tailoff_lem cnt h = elim (dec_lt cnt 32) [
  | yes lt ↦ rw (lt→ltb cnt 32 lt) (omega arith)
  | no ge ↦ rw (le→ltb cnt 32 (omega arith)) (omega arith)
]

module _ {A : Type 0} where
  -- The array at each multiple of 32 has the values of the list from there on.
  pub record Reads (v : Raw A) (xs : List A) : Type 0 where
    pub size : v.count ≡ length xs
    pub bound : v.count < 2 ^ 32
    pub at :
        (q j : ℕ) (x : A)
        → j < 32
        → get_elem? xs (32 * q + j) ≡ some x
        → Ensures (api_vector_array_for v v.count (32 * q)) (λ vs. vs j ≡ x)

  -- Next, before the last value, goes to the next place.
  pub chunk_next-more :
      (v : Raw A) (q j : ℕ)
      → v.count < 2 ^ 32
      → j < 32
      → 32 * q + j + 1 < v.count
      → (p : ℕ) × (k : ℕ) × (chunk_next (new_chunked_seq v (32 * q) j)
          ≡ some (new_chunked_seq v (32 * p) k))
        × (k < 32)
        × (32 * p + k ≡ 32 * q + j + 1)
  unfolding chunk_next node_len chunked_next
  chunk_next-more v q j bound small more =
      let off = vector_tailoff_lem v.count (omega arith) in
      let here : (j + 1) % 2 ^ 8 ≡ j + 1 = omega arith in
      elim (dec_le (32 * ((v.count - 1) / 32)) (32 * q)) [
        | yes tail ↦ (
          q,
          j + 1,
          rw
              (
                off,
                le→leb (32 * ((v.count - 1) / 32)) (32 * q) tail,
                here,
                lt→ltb (j + 1) (v.count - 32 * ((v.count - 1) / 32)) (omega arith),
              )
              refl,
          omega arith,
          omega arith,
        )
        | no trie ↦ elim (dec_lt (j + 1) 32) [
          | yes lt ↦ (
            q,
            j + 1,
            rw
                (
                  off,
                  lt→leb (32 * ((v.count - 1) / 32)) (32 * q) (omega arith),
                  here,
                  lt→ltb (j + 1) 32 lt,
                )
                refl,
            lt,
            omega arith,
          )
          | no ge ↦
              let wrap : (32 * q + 32) % 2 ^ 32 ≡ 32 * suc q = omega arith in
              (
                suc q,
                0,
                rw
                    (
                      off,
                      lt→leb (32 * ((v.count - 1) / 32)) (32 * q) (omega arith),
                      here,
                      le→ltb (j + 1) 32 (omega arith),
                      wrap,
                      lt→ltb (32 * suc q) v.count (omega arith),
                    )
                    refl,
                omega arith,
                omega arith,
              )
        ]
      ]

  -- Next at the last value is nil.
  pub chunk_next-last :
      (v : Raw A) (q j : ℕ)
      → v.count < 2 ^ 32
      → j < 32
      → 32 * q + j + 1 ≡ v.count
      → chunk_next (new_chunked_seq v (32 * q) j) ≡ none
  unfolding chunk_next node_len chunked_next
  chunk_next-last v q j bound small last =
      let off = vector_tailoff_lem v.count (omega arith) in
      let here : (j + 1) % 2 ^ 8 ≡ j + 1 = omega arith in
      let wrap : (32 * q + (v.count - 32 * ((v.count - 1) / 32))) % 2 ^ 32 ≡ v.count =
        omega arith in
      rw
        (
          off,
          le→leb (32 * ((v.count - 1) / 32)) (32 * q) (omega arith),
          here,
          le→ltb (j + 1) (v.count - 32 * ((v.count - 1) / 32)) (omega arith),
          wrap,
          le→ltb v.count v.count (omega arith),
        )
        refl

  pub chunk_count_lem :
      (v : Raw A) (i j left : ℕ)
      → v.count < 2 ^ 32
      → left + (i + j) ≡ v.count
      → chunk_count (new_chunked_seq v i j) ≡ left % 2 ^ 32
  unfolding chunk_count
  chunk_count_lem v i j left bound e = omega arith

  pub chunk_first_lem :
      (v : Raw A) (xs : List A) (q j : ℕ) (x : A)
      → Reads v xs
      → j < 32
      → get_elem? xs (32 * q + j) ≡ some x
      → chunk_first (new_chunked_seq v (32 * q) j) ≡ ok x
  unfolding chunk_first node_at
  chunk_first_lem v xs q j x h small e =
      let (vs, a, p) = h.at q j x small e in
      rw
        (
          a,
          ne→eq v.count 0 (omega (arith, get_elem?-lt xs (32 * q + j) x e, h.size)),
          lt→ltb j 32 small,
        )
        (ap ok p)
