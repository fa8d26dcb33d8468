-- ===== src/Inventory/Calls.antt =====
-- The interface Store of repository.go as a type of calls, and histories of calls. The mutex makes
-- a history of concurrent requests a sequence of calls, each at its own time.
use seckill_mall.Base.{ℕ, String, List, [], ◌∷◌, Action}
use seckill_mall.Contracts.Events.{EventEnvelope}
use seckill_mall.Inventory.Model.{Reservation, ReserveCommand, SeckillAdmissionCommand, Error}
use seckill_mall.Inventory.Ledger.{Ledger}
use seckill_mall.Inventory.Store.{MemoryStore, reserve, confirm, release, restock, admit_seckill}
use seckill_mall.Inventory.Moves.{
  Move, reserve-Move, confirm-Move, release-Move, restock-Move, admit_seckill-Move,
}

pub data Call : Type 0 where
  reserves : ReserveCommand → Call
  confirms releases restocks : String → String → Call
  admits : SeckillAdmissionCommand → Call

module _ {S : Type 0} (append : EventEnvelope → Action S String (Unit {0})) where
  unfoldable pub perform : Call → ℕ → Action (MemoryStore S) Error Reservation
  perform (reserves c) now = reserve append c now
  perform (confirms id order_id) now = confirm append id order_id now
  perform (releases id order_id) now = release append id order_id now
  perform (restocks id order_id) now = restock append id order_id now
  perform (admits c) now = admit_seckill append c now

  unfoldable pub run : List (ℕ × Call) → MemoryStore S → MemoryStore S
  run [] s = s
  run ((now, c) ∷ cs) s = run cs (perform c now s).1

  -- Every call keeps the maps, or makes one move of the step relation: a new reservation, or an edge
  -- of the life of one that the store holds. This is so whatever the event stream answers.
  pub perform-Move :
      (c : Call) (now : ℕ) (s : MemoryStore S) → Move s.ledger (perform c now s).1.ledger
  unfolding perform
  perform-Move (reserves c) now s = reserve-Move append c now s
  perform-Move (confirms id order_id) now s = confirm-Move append id order_id now s
  perform-Move (releases id order_id) now s = release-Move append id order_id now s
  perform-Move (restocks id order_id) now s = restock-Move append id order_id now s
  perform-Move (admits c) now s = admit_seckill-Move append c now s

  -- An invariant of the moves holds after any history.
  pub run_invariant :
      (P : Ledger → Type 0)
      → ((l u : Ledger) → Move l u → P l → P u)
      → (cs : List (ℕ × Call)) (s : MemoryStore S) → P s.ledger
      → P (run cs s).ledger
  unfolding run
  run_invariant P preserved [] s h = h
  run_invariant P preserved ((now, c) ∷ cs) s h =
      run_invariant P preserved cs (perform c now s).1
        (preserved s.ledger (perform c now s).1.ledger (perform-Move c now s) h)
