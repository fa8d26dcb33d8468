-- ===== src/Order/Audit.antt =====
-- services/order/internal/app: the status history and the amounts of the orders, across the
-- requests.
use seckill_mall.Base.{
  ℕ, ap, subst₂, ◌≡◌, refl, inl, inr, ◌∙◌, sym, subst, String, true, Option, none, some, List, [],
  ◌∷◌, ◌++◌, str_eq, str_eq→eq, arith, lookup, lookup-insert, insert, Table, Action, Bool-cases,
}
use seckill_mall.Contracts.Events.{EventEnvelope}
use seckill_mall.Order.Model.{
  Status, pending_payment, Error, Order, StatusHistory, Sku, Address, can_transition,
}
use seckill_mall.Order.Repository.{Repository, moved_order, new_memory_repository}
use seckill_mall.Order.Steps.{Step, IsFresh, keeps, creates, moves}
use seckill_mall.Order.Amounts.{IsPriced}
use seckill_mall.Order.World.{InventoryClient}
use seckill_mall.Order.Requests.{Request, serve_all, serve_all_invariant}

-- An entry starts where the one before it ended, the first one is the creation, and every other one
-- is an edge that canTransition allows.
abbrev pub Allowed : Option Status → Status → Type 0
Allowed none t = t ≡ pending_payment
Allowed (some s) t = can_transition s t ≡ true

abbrev pub Trail : Option Status → List StatusHistory → Status → Type 0
Trail none [] t = ⊥
Trail (some s) [] t = s ≡ t
Trail from (e ∷ es) t =
    (e.from_status ≡ from) × Allowed from e.to_status × Trail (some e.to_status) es t

pub record IsAudited (id : String) (o : Order) : Type 0 where
  pub own_id : o.order_id ≡ id
  pub priced : IsPriced o.total_amount_cents o.items
  pub trail : Trail none o.status_history o.status

abbrev pub AllAudited : Table Order → Type 0
AllAudited orders = (id : String) (o : Order) → lookup id orders ≡ some o → IsAudited id o

Trail-append :
    (from : Option Status) (es : List StatusHistory) (s : Status) (e : StatusHistory)
    → Trail from es s
    → e.from_status ≡ some s
    → can_transition s e.to_status ≡ true
    → Trail from (es ++ e ∷ []) e.to_status
Trail-append none [] s e h starts allowed = elim h [ ]
Trail-append (some x) [] s e h starts allowed = (
  starts ∙ ap some (sym h),
  subst (λ y. can_transition y e.to_status ≡ true) (sym h) allowed,
  refl,
)
Trail-append from (d ∷ es) s e (f, a, h) starts allowed =
    (f, a, Trail-append (some d.to_status) es s e h starts allowed)

insert-AllAudited :
    (id : String) (o : Order) (orders : Table Order)
    → IsAudited id o
    → AllAudited orders
    → AllAudited (insert id o orders)
insert-AllAudited id o orders audited all j v found = elim (Bool-cases (str_eq id j)) [
  | inl same ↦
      subst₂ (λ k x. IsAudited k x) (str_eq→eq id j same)
        (ground (arith, lookup-insert id j o orders)) audited
  | inr other ↦ all j v (ground (arith, lookup-insert id j o orders))
]

fresh-IsAudited : (o : Order) → IsFresh o → IsAudited o.order_id o
fresh-IsAudited o fresh =
    let (entry, history, from_none, to_pending) = fresh.first_entry in
    record {
      own_id = refl;
      priced = fresh.priced;
      trail =
          subst (λ es. Trail none es o.status) (sym history)
            (from_none, to_pending, to_pending ∙ sym fresh.pending);
    }

moved-IsAudited :
    (id : String) (o : Order) (target : Status) (reason actor_type : String) (actor_id now : ℕ)
    → can_transition o.status target ≡ true
    → IsAudited id o
    → IsAudited id (moved_order o target reason actor_type actor_id now)
unfolding moved_order
moved-IsAudited id o target reason actor_type actor_id now allowed audited = record {
  own_id = audited.own_id;
  priced = audited.priced;
  trail = Trail-append none o.status_history o.status _ audited.trail refl allowed;
}

module _ {S : Type 0} where
  Step-AllAudited : (r u : Repository S) → Step r u → AllAudited r.orders → AllAudited u.orders
  Step-AllAudited r u (keeps same _) all = rw same all
  Step-AllAudited r u (creates value fresh _ orders _) all =
      rw orders (insert-AllAudited value.order_id value r.orders (fresh-IsAudited value fresh) all)
  Step-AllAudited r u (moves id value target reason actor_type actor_id now found allowed orders _)
        all =
      rw orders (
        insert-AllAudited id _ r.orders
          (moved-IsAudited id value target reason actor_type actor_id now allowed
            (all id value found))
          all)

-- After any history of requests on a new repository, whatever the event sink, the clients, the clock
-- and the hash answer, every order is stored under its own id; its total is the sum of price times
-- quantity over its items, without wrap-around, and so is each subtotal; and its status history
-- starts with the creation, goes along edges of the state machine only, each entry from the status
-- in which the one before it ended, and ends in the order's status.
pub serve_all-IsAudited :
    {S I : Type 0} (append : EventEnvelope → Action S Error (Unit {0})) (client : InventoryClient I)
    (clock : I → ℕ) (catalog : List ℕ → Action I Error (List Sku))
    (identity : ℕ → ℕ → Action I Error Address) (hash : String → String) (ttl : ℕ) (sink : Option S)
    (outside : I) (qs : List Request) (id : String) (o : Order)
    → lookup id
        (serve_all append client clock catalog identity hash ttl qs
          (record { repository = new_memory_repository sink; outside = outside })).repository.orders
      ≡ some o
    → IsAudited id o
unfolding new_memory_repository lookup
serve_all-IsAudited {S} append client clock catalog identity hash ttl sink outside qs id o found =
    serve_all_invariant append client clock catalog identity hash ttl
      (λ (r : Repository S). AllAudited r.orders) Step-AllAudited qs
      (record { repository = new_memory_repository sink; outside = outside }) (λ j v h. cc) id o
      found
