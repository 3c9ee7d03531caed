-- ===== src/Book/Side/Search.antt =====
-- src/infrastructure/gektor_l2/nd_orderbook.py: `searchsorted` on ascending keys.
use gektor.Base.{
  ℕ, zero, suc, ◌≤◌, ◌≡◌, refl, List, [], ◌∷◌, if◌then◌else◌, length, take, drop, ℤ, ltb_ℤ, All,
  ◌≤ℤ◌, ◌<ℤ◌, arith,
}
use gektor.Book.Side.{Numpy, IsNumpy, IsAscending}

unfoldable pub position : List ℤ → ℤ → ℕ
position [] k = 0
position (j ∷ ks) k = if ltb_ℤ j k then suc (position ks k) else 0

split-position :
    (i : ℕ) (ks : List ℤ) (k : ℤ)
    → i ≤ length ks
    → All (λ j. j <ℤ k) (take i ks)
    → All (λ j. k ≤ℤ j) (drop i ks)
    → i ≡ position ks k
unfolding position
split-position zero [] k h lo hi = refl
split-position (suc i) [] k h lo hi = absurd (omega arith)
split-position zero (j ∷ ks) k h lo hi = ground arith
split-position (suc i) (j ∷ ks) k h lo hi =
    ground (arith, split-position i ks k (omega arith) lo.1 hi)

pub searchsorted-position :
    (np : Numpy) (ks : List ℤ) (k : ℤ)
    → IsNumpy np
    → IsAscending ks
    → np.searchsorted ks k ≡ position ks k
searchsorted-position np ks k h a =
    split-position (np.searchsorted ks k) ks k (h.within ks k) (h.below ks k a) (h.above ks k a)
