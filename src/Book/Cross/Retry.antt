-- ===== src/Book/Cross/Retry.antt =====
-- src/infrastructure/gektor_l2/nd_orderbook.py: `take` and `take_with_retry`.
use gektor.Base.{
  ℕ, zero, suc, ◌<◌, ◌≡◌, refl, ◌↔◌, inl, inr, Bool, true, false, some, List, [], ◌∷◌, arith, Float,
  ◌≼◌, Bool-cases, All, is_some, length, ◌++◌,
}
use gektor.Base.Dicts.{Dict, lookup}
use gektor.Book.State.{Book, BookState, BookReadiness, readiness}
use gektor.Book.Cross.{
  CrossAssetSnapshot, World, all_ready, every_ready, is_ready, take, slices_of, state_or,
  take_with_retry,
}

is_ready_iff : (rd : BookReadiness) → (is_ready rd ≡ true) ↔ (rd ≡ BookReadiness.ready)
is_ready_iff BookReadiness.ready = (λ h. refl, λ h. refl)
is_ready_iff BookReadiness.empty_but_valid = (λ h. cc, λ h. cc)
is_ready_iff BookReadiness.recovering = (λ h. cc, λ h. cc)
is_ready_iff BookReadiness.blind_network = (λ h. cc, λ h. cc)
is_ready_iff BookReadiness.blind_stale = (λ h. cc, λ h. cc)

module _ {R : Type 0} ⦃f : Float R⦄ where
  -- Each book of the dict is ready, by the state that the multiplexer reports.
  abbrev pub AllReady : Dict (Book R) → Dict BookState → Bool → R → Type 0
  AllReady books states breaker now =
      All (λ e. readiness (state_or (lookup e.0 states)) breaker now e.1 ≡ BookReadiness.ready)
        books

  slices_of-ready :
      (books : Dict (Book R)) (states : Dict BookState) (breaker : Bool) (target : ℕ) (now : R)
      → (every_ready (slices_of books states breaker target now) ≡ true)
        ↔ AllReady books states breaker now
  unfolding slices_of
  slices_of-ready [] states breaker target now = (λ h. tt, λ h. refl)
  slices_of-ready ((sym, b) ∷ rest) states breaker target now =
      let (p, q) = is_ready_iff (readiness (state_or (lookup sym states)) breaker now b) in
      let (r, s) = slices_of-ready rest states breaker target now in
      (λ h. (p (ground arith), r (ground arith)), λ h. rw (q h.0) (s h.1))

  -- A snapshot is handed out only from an attempt before the deadline at which every book was ready,
  -- and it is what `take` read there.
  pub take_with_retry-ready :
      (attempts : ℕ) (deadline : R) (breaker : Bool) (target : ℕ) (worlds : List (World R))
      (snap : CrossAssetSnapshot R)
      → take_with_retry attempts deadline breaker target worlds ≡ some snap
      → (w : World R) × (snap ≡ take w.books w.states breaker target w.now)
        × ((deadline ≼ w.now) ≡ false)
        × AllReady w.books w.states breaker w.now
  unfolding take_with_retry all_ready take
  take_with_retry-ready zero deadline breaker target worlds snap e = absurd (ground arith)
  take_with_retry-ready (suc n) deadline breaker target [] snap e = absurd (ground arith)
  take_with_retry-ready (suc n) deadline breaker target (w ∷ worlds) snap e =
      elim (Bool-cases (deadline ≼ w.now)) [
        | inl late ↦ absurd (ground arith)
        | inr early ↦
            elim (Bool-cases (every_ready (slices_of w.books w.states breaker target w.now))) [
              | inl ok ↦ (
                w,
                ground arith,
                early,
                (slices_of-ready w.books w.states breaker target w.now).0 ok,
              )
              | inr bad ↦ take_with_retry-ready n deadline breaker target worlds snap (ground arith)
            ]
      ]

  -- An attempt within the number of retries and before the deadline at which every book is ready is
  -- enough for a snapshot, whatever the attempts before it met.
  pub take_with_retry-finds :
      (attempts : ℕ) (deadline : R) (breaker : Bool) (target : ℕ) (before after : List (World R))
      (w : World R)
      → length before < attempts
      → All (λ v. (deadline ≼ v.now) ≡ false) (before ++ (w ∷ []))
      → AllReady w.books w.states breaker w.now
      → is_some (take_with_retry attempts deadline breaker target (before ++ (w ∷ after))) ≡ true
  unfolding take_with_retry all_ready take
  take_with_retry-finds zero deadline breaker target before after w l h r = absurd (omega arith)
  take_with_retry-finds (suc n) deadline breaker target [] after w l h r =
      let ok = (slices_of-ready w.books w.states breaker target w.now).1 r in rw (h.0, ok) refl
  take_with_retry-finds (suc n) deadline breaker target (v ∷ before) after w l h r =
      ground (arith, take_with_retry-finds n deadline breaker target before after w, h, r)
