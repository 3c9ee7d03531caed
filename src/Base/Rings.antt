-- ===== src/Base/Rings.antt =====
-- Fixed arrays that a loop of the source writes in place: reads and writes by index.
use Prim.Native.Nat.{ℕ, zero, suc, ◌+◌, ◌-◌, ◌*◌, ◌/◌, ◌%◌, ◌≤◌, ◌<◌}
use mathlib.Core.Logic.{◌≢◌}
use native.Mathlib.Decide.{dec_lt, dec_le}
use native.Mathlib.Nat.{
  mod_self, mod-lt, mod-eq_of_lt, mod-eq-sub-mod, add-mod_right, div-add-mod, mod-add-mod,
}
use mathlib.Core.Path.{◌≡◌, refl, ap, sym, ◌∙◌}
use mathlib.Core.List.{List, [], ◌∷◌}
use native.Mathlib.Omega.{arith}
use gektor.Base.Tests.{leb, if◌then◌else◌}
use mathlib.Core.Bool.{true, false}
use gektor.Base.Lists.{length}

module _ {ℓ} {A : Type ℓ} where
  abbrev pub get_or : List A → ℕ → A → A
  get_or [] i d = d
  get_or (x ∷ xs) zero d = x
  get_or (x ∷ xs) (suc i) d = get_or xs i d

  -- A write out of bounds changes nothing.
  abbrev pub set : List A → ℕ → A → List A
  set [] i v = []
  set (x ∷ xs) zero v = v ∷ xs
  set (x ∷ xs) (suc i) v = x ∷ set xs i v

  abbrev pub replicate : ℕ → A → List A
  replicate zero a = []
  replicate (suc n) a = a ∷ replicate n a

  pub length-set : (xs : List A) (i : ℕ) (v : A) → length (set xs i v) ≡ length xs
  length-set [] i v = refl
  length-set (x ∷ xs) zero v = refl
  length-set (x ∷ xs) (suc i) v = ap suc (length-set xs i v)

  pub length-replicate : (n : ℕ) (a : A) → length (replicate n a) ≡ n
  length-replicate zero a = refl
  length-replicate (suc n) a = ap suc (length-replicate n a)

  pub get_or-set_self :
      (xs : List A) (i : ℕ) (v d : A) → i < length xs → get_or (set xs i v) i d ≡ v
  get_or-set_self [] i v d h = elim h [ ]
  get_or-set_self (x ∷ xs) zero v d h = refl
  get_or-set_self (x ∷ xs) (suc i) v d h = get_or-set_self xs i v d (omega arith)

module _ {ℓ} {A : Type ℓ} where
  pub get_or-set_other :
      (xs : List A) (i j : ℕ) (v d : A) → i ≢ j → get_or (set xs i v) j d ≡ get_or xs j d
  get_or-set_other [] i j v d h = refl
  get_or-set_other (x ∷ xs) zero zero v d h = absurd (h refl)
  get_or-set_other (x ∷ xs) zero (suc j) v d h = refl
  get_or-set_other (x ∷ xs) (suc i) zero v d h = refl
  get_or-set_other (x ∷ xs) (suc i) (suc j) v d h = get_or-set_other xs i j v d (λ e. h (ap suc e))

-- Numbers less than the capacity apart have different slots.
pub slots-apart : (i j c : ℕ) → i < j → j < i + c → i % c ≢ j % c
slots-apart i j c l u e =
    let a = div-add-mod i c in
    let b = div-add-mod j c in
    elim (dec_le (j / c) (i / c)) [
      | yes p ↦ let m : c * (j / c) ≤ c * (i / c) = grind arith in omega arith
      | no p ↦
          let m : c * (i / c + 1) ≤ c * (j / c) = grind arith in
          let n : c * (i / c + 1) ≡ c * (i / c) + c = omega arith in omega arith
    ]

-- The slot of a number that lies at most the capacity behind the head.
pub ring_behind : (i n c : ℕ) → i ≤ n → n ≤ i + c → 0 < c → (n % c + c - (n - i)) % c ≡ i % c
ring_behind i n c l u p =
    let d = n - i in
    let f : n ≡ i + d = omega arith in
    let b : i % c < c = mod-lt i p in
    let g : n % c ≡ (i % c + d) % c = ap (λ (t : ℕ). t % c) f ∙ sym (mod-add-mod i c d) in
    elim (dec_lt (i % c + d) c) [
      | yes q ↦
          let m : n % c ≡ i % c + d = g ∙ mod-eq_of_lt q in
          let t : n % c + c - d ≡ i % c + c = omega arith in
          rw t (add-mod_right (i % c) c ∙ mod-eq_of_lt b)
      | no q ↦
          let m : n % c ≡ i % c + d - c =
            g ∙ mod-eq-sub-mod (omega arith) ∙ mod-eq_of_lt (omega arith) in
          let t : n % c + c - d ≡ i % c = omega arith in rw t (mod-eq_of_lt b)
    ]

-- The slot before the next write, `(head - 1) % capacity`.
pub ring_back :
    (head capacity : ℕ) → head < capacity → ((head + 1) % capacity + capacity - 1) % capacity ≡ head
ring_back head capacity h = grind arith

-- The next slot of a ring.
pub wrapped : (n w : ℕ) → 0 < w → (if leb w (n % w + 1) then 0 else n % w + 1) ≡ (n + 1) % w
wrapped n w p =
    let b : n % w < w = mod-lt n p in
    sym (elim (dec_lt (n % w + 1) w) [
      | yes l ↦
          let e : leb w (n % w + 1) ≡ false = ground arith in
          sym (mod-add-mod n w 1) ∙ mod-eq_of_lt l ∙ rw e
      | no l ↦
          let e : leb w (n % w + 1) ≡ true = ground arith in
          let s : n % w + 1 ≡ w = omega arith in
          sym (mod-add-mod n w 1) ∙ ap (λ (t : ℕ). t % w) s ∙ mod_self w ∙ rw e
    ])
