-- ===== src/Mux/Reply.antt =====
-- src/infrastructure/gektor_l2/ws_multiplexer.py: `_resync_pump`, and what becomes of a REST reply.
use gektor.Base.{
  ℕ, ◌+◌, ◌≡◌, ◌≢◌, refl, true, false, some, List, ◌==◌, String, str_eq, eq_iff, arith,
}
use gektor.Base.Dicts.{lookup, lookup-insert}
use gektor.Book.Side.{Side, Numpy}
use gektor.Book.Sizing.{Factors}
use gektor.Book.Ring.{Rows}
use gektor.Book.State.{Book, BookState, ingest_snapshot}
use gektor.Mux.{Mux, Pump, fetched, rest, lose_shard}

module _ {R : Type 0} (np : Numpy) (recalc : Side → Side → Factors → Factors) where
  -- The reply to a fetch is applied, and its symbol in step again, when the connection epoch is still
  -- that of the queue entry; else it is discarded and only the pump moves on.
  pub fetched_lem :
      (sym : String) (n u : ℕ) (bids asks : Rows) (now : R) (b : Book R) (m : Mux R)
      → m.pump ≡ Pump.fetching sym n
      → lookup sym m.processors ≡ some b
      → let c = fetched np recalc u bids asks now m in
        (n ≡ m.connection_epoch
          → (lookup sym c.states ≡ some BookState.synced)
            × (lookup sym c.processors ≡ some (ingest_snapshot np recalc u bids asks now b))
            × (c.pump ≡ Pump.idle))
        × (n ≢ m.connection_epoch → c ≡ rest m)
  unfolding fetched
  fetched_lem sym n u bids asks now b m p e =
      let self : str_eq sym sym ≡ true = ground (arith, eq_iff sym sym) in
      (
        λ same.
            let q : (m.connection_epoch == n) ≡ true = ground arith in
            rw (p, q, e)
              (
                (rw (lookup-insert sym sym BookState.synced m.states, self) refl),
                (rw
                    (
                      lookup-insert sym sym (ingest_snapshot np recalc u bids asks now b)
                          m.processors,
                      self,
                    )
                    refl),
                refl,
              ),
        λ other. let q : (m.connection_epoch == n) ≡ false = ground arith in rw (p, q) refl,
      )

  -- A reply that was awaited when a connection was lost is discarded.
  pub lost_reply :
      (sym : String) (shard : List String) (u : ℕ) (bids asks : Rows) (now : R) (m : Mux R)
      → m.pump ≡ Pump.fetching sym m.connection_epoch
      → fetched np recalc u bids asks now (lose_shard shard m) ≡ rest (lose_shard shard m)
  unfolding fetched lose_shard
  lost_reply sym shard u bids asks now m p =
      let q : (m.connection_epoch + 1 == m.connection_epoch) ≡ false = ground arith in
      rw (p, q) refl
