-- ===== src/Book/Cross/Occ.antt =====
-- src/infrastructure/gektor_l2/nd_orderbook.py: `is_consistent`, and the epochs of a snapshot.
use gektor.Base.{
  ℕ, ◌≡◌, refl, inl, inr, Bool, true, false, Option, none, some, [], ◌∷◌, ◌==◌, String, str_eq,
  eq_iff, arith, Float, Bool-cases,
}
use gektor.Base.Dicts.{Dict, lookup, insert, lookup-insert, IsDict}
use gektor.Book.Side.{Numpy, Side}
use gektor.Book.Sizing.{Factors}
use gektor.Book.Ring.{Delta, Rows}
use gektor.Book.Ring.Queue.{IsRing}
use gektor.Book.State.{Book, BookState, ingest_delta, ingest_snapshot}
use gektor.Book.State.Snapshots.{ingest_snapshot-outcome}
use gektor.Book.Cross.{
  BookSlice, CrossAssetSnapshot, is_consistent, is_consistent_msq, epochs_kept, same_epoch,
  none_damaged, undamaged, take, slices_of, state_or,
}

ingest_delta-epoch :
    {R : Type 0} (np : Numpy) (d : Delta) (now : R) (b : Book R)
    → (ingest_delta np d now b).1 ≡ true
    → (ingest_delta np d now b).0.read_epoch ≡ b.read_epoch
unfolding ingest_delta
ingest_delta-epoch np d now b h = ground arith

module _ {R : Type 0} where
  same_epoch-insert :
      (sym other : String) (b c : Book R) (books : Dict (Book R)) (s : BookSlice R)
      → lookup sym books ≡ some b
      → c.read_epoch ≡ b.read_epoch
      → same_epoch (lookup other (insert sym c books)) s ≡ same_epoch (lookup other books) s
  same_epoch-insert sym other b c books s l e = elim (Bool-cases (str_eq sym other)) [
    | inl q ↦
        let p : other ≡ sym = ground (arith, eq_iff sym other) in
        rw (lookup-insert sym other c books, q, p, l, e) refl
    | inr q ↦ rw (lookup-insert sym other c books, q) refl
  ]

  epochs_kept-insert :
      (slices : Dict (BookSlice R)) (sym : String) (b c : Book R) (books : Dict (Book R))
      → lookup sym books ≡ some b
      → c.read_epoch ≡ b.read_epoch
      → epochs_kept slices (insert sym c books) ≡ epochs_kept slices books
  epochs_kept-insert [] sym b c books l e = refl
  epochs_kept-insert ((other, s) ∷ rest) sym b c books l e =
      rw (same_epoch-insert sym other b c books s l e, epochs_kept-insert rest sym b c books l e)
        refl

  -- A delta that is applied to a book goes unnoticed: a snapshot counts as consistent after it
  -- exactly if it did before.
  pub delta_unnoticed :
      (np : Numpy) (d : Delta) (now : R) (sym : String) (b : Book R) (books : Dict (Book R))
      (snap : CrossAssetSnapshot R)
      → lookup sym books ≡ some b
      → (ingest_delta np d now b).1 ≡ true
      → is_consistent snap (insert sym (ingest_delta np d now b).0 books) ≡ is_consistent snap books
  unfolding is_consistent
  delta_unnoticed np d now sym b books snap l a =
      epochs_kept-insert snap.slices sym b (ingest_delta np d now b).0 books l
        (ingest_delta-epoch np d now b a)

  other_epoch :
      (slices : Dict (BookSlice R)) (sym : String) (s : BookSlice R) (c : Book R)
      (books : Dict (Book R))
      → lookup sym slices ≡ some s
      → lookup sym books ≡ some c
      → (c.read_epoch == s.epoch) ≡ false
      → epochs_kept slices books ≡ false
  unfolding lookup
  other_epoch [] sym s c books h l e = ground arith
  other_epoch ((other, t) ∷ rest) sym s c books h l e =
      ground (arith, eq_iff other sym, other_epoch rest sym s c books)

  -- A snapshot of a book whose buffer is sound and whose epoch is the one that was read is
  -- noticed: the reading no longer counts as consistent, also when the snapshot ends in an
  -- invalidation.
  pub snapshot_noticed :
      (np : Numpy) (recalc : Side → Side → Factors → Factors) (update_id : ℕ) (bids asks : Rows)
      (now : R) (sym : String) (b : Book R) (s : BookSlice R) (books : Dict (Book R))
      (snap : CrossAssetSnapshot R)
      → lookup sym snap.slices ≡ some s
      → s.epoch ≡ b.read_epoch
      → IsRing b.delta_buffer
      → is_consistent snap (insert sym (ingest_snapshot np recalc update_id bids asks now b) books)
        ≡ false
  unfolding is_consistent
  snapshot_noticed np recalc update_id bids asks now sym b s books snap h e ring =
      let c = ingest_snapshot np recalc update_id bids asks now b in
      let self : str_eq sym sym ≡ true = ground (arith, eq_iff sym sym) in
      other_epoch snap.slices sym s c (insert sym c books) h
        (rw (lookup-insert sym sym c books, self) refl)
        (ground (arith, ingest_snapshot-outcome np recalc update_id bids asks now b ring))

module _ {R : Type 0} ⦃f : Float R⦄ where
  later_entry :
      (sym other : String) (b c : Book R) (rest : Dict (Book R))
      → lookup sym rest ≡ none
      → lookup other rest ≡ some c
      → lookup other ((sym, b) ∷ rest) ≡ some c
  unfolding lookup
  later_entry sym other b c rest n l = elim (Bool-cases (str_eq sym other)) [
    | inl q ↦ let p : sym ≡ other = ground (arith, eq_iff sym other) in ground (arith, (rw p at n))
    | inr q ↦ rw q l
  ]

  slices_of-kept :
      (part books : Dict (Book R)) (states : Dict BookState) (breaker : Bool) (target : ℕ) (now : R)
      → IsDict part
      → ((other : String) (c : Book R) → lookup other part ≡ some c → lookup other books ≡ some c)
      → epochs_kept (slices_of part states breaker target now) books ≡ true
  unfolding slices_of lookup
  slices_of-kept [] books states breaker target now d h = refl
  slices_of-kept ((sym, b) ∷ rest) books states breaker target now d h =
      let self : str_eq sym sym ≡ true = ground (arith, eq_iff sym sym) in
      let l : lookup sym books ≡ some b = h sym b (rw self refl) in
      let same : (b.read_epoch == b.read_epoch) ≡ true = ground arith in
      rw (l, same)
        (slices_of-kept rest books states breaker target now d.1
          (λ other c e. h other c (later_entry sym other b c rest d.0 e)))

  undamaged-same_epoch :
      (b : Option (Book R)) (s : BookSlice R) (st : BookState) (breaker : Bool) (target : ℕ)
      (now : R)
      → same_epoch b s ≡ true
      → undamaged b st breaker target now s ≡ true
  undamaged-same_epoch none s st breaker target now h = h
  undamaged-same_epoch (some b) s st breaker target now h = rw h refl

  kept-undamaged :
      (slices : Dict (BookSlice R)) (books : Dict (Book R)) (states : Dict BookState)
      (breaker : Bool) (target : ℕ) (now : R)
      → epochs_kept slices books ≡ true
      → none_damaged slices books states breaker target now ≡ true
  kept-undamaged [] books states breaker target now h = refl
  kept-undamaged ((sym, s) ∷ rest) books states breaker target now h = ground (
    arith,
    undamaged-same_epoch (lookup sym books) s (state_or (lookup sym states)) breaker target now,
    kept-undamaged rest books states breaker target now,
  )

  -- A reading of a dict of books that was just taken is consistent, by the epochs and, at any
  -- later time and whatever the feed's states are then, by the market sizes.
  pub take-consistent :
      (books : Dict (Book R)) (states later_states : Dict BookState) (breaker later_breaker : Bool)
      (target : ℕ) (now later : R)
      → IsDict books
      → let snap = take books states breaker target now in
        (is_consistent snap books ≡ true)
        × (is_consistent_msq snap books later_states later_breaker target later ≡ true)
  unfolding is_consistent is_consistent_msq take
  take-consistent books states later_states breaker later_breaker target now later d =
      let kept = slices_of-kept books books states breaker target now d (λ other c e. e) in
      (kept, kept-undamaged _ books later_states later_breaker target later kept)
