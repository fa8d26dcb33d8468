-- ===== src/Inventory/Replay.antt =====
-- services/inventory/internal/app/memory_store.go: a request that is delivered again after it
-- succeeded.
mod Outcomes
mod New
mod Found
pub use Found.{release-Answers}
pub use Outcomes.{Findable, IsOver}
use seckill_mall.Base.{ℕ, ◌≡◌, String, Action, ok}
use seckill_mall.Contracts.Events.{EventEnvelope}
use seckill_mall.Inventory.Store.{MemoryStore}
use seckill_mall.Inventory.Calls.{Call, perform}
use Outcomes.{Answers}
use New.{reserve-Answers, reserve_replay, admit_seckill-Answers, admit_replay}
use Found.{confirm_twice, release_twice, restock_twice}

module _ {S : Type 0} (append : EventEnvelope → Action S String (Unit {0})) where
  -- If a call succeeds, the same call at any later time, on the store that it left, gives the same
  -- reservation as its answer and leaves the whole store as it is, the event stream included.
  pub perform_twice :
      (c : Call) (now later : ℕ) (s : MemoryStore S)
      → Answers (λ r s'. perform append c later s' ≡ (ok r, s')) (perform append c now s)
  unfolding perform
  perform_twice (Call.reserves c) now later s r h =
      let (kept, same, valid) = reserve-Answers append c now s r h in
      reserve_replay append c later r _ kept same valid
  perform_twice (Call.admits c) now later s r h =
      let (kept, same, valid) = admit_seckill-Answers append c now s r h in
      admit_replay append c later r _ kept same valid
  perform_twice (Call.confirms id order_id) now later s r h =
      confirm_twice append id order_id now later s r h
  perform_twice (Call.releases id order_id) now later s r h =
      release_twice append id order_id now later s r h
  perform_twice (Call.restocks id order_id) now later s r h =
      restock_twice append id order_id now later s r h
