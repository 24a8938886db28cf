-- ===== src/Handled.antt =====
-- The class templates with a handler: Subscriber<Handler> of include/zenoh/api/subscriber.hxx, and those
-- of queryable.hxx, matching.hxx, transport_events_listener.hxx, link_events_listener.hxx, ext/miss.hxx,
-- ext/querying_subscriber.hxx and ext/advanced_subscriber.hxx. Each is an object of its base class,
-- with a handler as a member, and they differ in the C function that undeclares the base.
pub mod Classes
pub mod Conserved
pub mod Undeclared
mod Tests
use zenoh_cpp.Base.{ℕ, List, [], ◌∷◌, Option, none, some}
use zenoh_cpp.Result.{ZResult, Run, returned, threw, result_check}
use zenoh_cpp.Owned.{
  OwnedType, Memory, Op, set, construct, move_construct, move_assign, destroy, step,
}

-- One operation, on addresses; those of Owned are on a base or a handler that stands alone.
pub data HandledOp : Type 0 where
  makes : (this s handler : ℕ) → HandledOp
  moves_into moves_onto : (this other : ℕ) → HandledOp
  undeclares : (this result : ℕ) → Option ZResult → HandledOp
  ends : ℕ → HandledOp
  on_base on_handler : Op → HandledOp

module _ (b h : OwnedType) where
  -- The bases and the handlers, by address: an object of the class has its base and its handler at its
  -- address. A Subscriber<void> is a base alone, and a handler may stand alone too.
  pub record Parts : Type 0 where
    pub bases : Memory b
    pub handlers : Memory h

  abbrev pub both : Option (Memory b) → Option (Memory h) → Option Parts
  both none hs = none
  both (some bs) none = none
  both (some bs) (some hs) = some (record { bases = bs; handlers = hs })

  -- Subscriber(Subscriber<void>&& s, Handler handler)
  unfoldable pub make_handled : (this s handler : ℕ) → Parts → Option Parts
  make_handled this s handler p =
      both (construct b this (some s) p.bases) (move_construct h this handler p.handlers)

  -- The moves and the destructor are those of the base and of the member.
  unfoldable pub move_construct_handled : (this other : ℕ) → Parts → Option Parts
  move_construct_handled this other p =
      both (move_construct b this other p.bases) (move_construct h this other p.handlers)

  unfoldable pub move_assign_handled : (this other : ℕ) → Parts → Option Parts
  move_assign_handled this other p =
      both (move_assign b this other p.bases) (move_assign h this other p.handlers)

  unfoldable pub destroy_handled : ℕ → Parts → Option Parts
  destroy_handled this p = both (destroy b this p.bases) (destroy h this p.handlers)

  -- What the C function that undeclares gets as a moved value: it leaves something there.
  abbrev pub Undeclare : Type 0
  Undeclare = b.Inner → b.World → (ZResult × b.Inner) × b.World

  -- The return of the handler into `result`, when the check of the code has passed.
  unfoldable pub return_handler :
      (this result : ℕ) → Run Parts (Unit {0}) → Option (Run Parts (Unit {0}))
  return_handler this result (threw code p) = some (threw code p)
  return_handler this result (returned u err p) = elim (move_construct h result this p.handlers) [
    | none ↦ none
    | some hs ↦ some (returned tt err (record p { handlers = hs }))
  ]

  -- Handler undeclare(ZResult* err) &&
  unfoldable pub undeclare_handled :
      Undeclare → (this result : ℕ) → Option ZResult → Parts → Option (Run Parts (Unit {0}))
  unfolding return_handler result_check
  undeclare_handled z_undeclare this result err p = elim (p.bases.objects this) [
    | none ↦ none
    | some v ↦
        let ((code, v'), w) = z_undeclare v p.bases.world in
        let bs : Memory b = record { objects = set b p.bases.objects this (some v'); world = w } in
        return_handler this result (result_check code err (record p { bases = bs }))
  ]

  -- The parts when a call has returned or thrown.
  abbrev pub parts_after : Option (Run Parts (Unit {0})) → Option Parts
  parts_after none = none
  parts_after (some (returned u err p)) = some p
  parts_after (some (threw code p)) = some p

  unfoldable pub handled_step : Undeclare → HandledOp → Parts → Option Parts
  unfolding make_handled move_construct_handled move_assign_handled undeclare_handled
      destroy_handled
  handled_step z_undeclare (makes this s handler) p = make_handled this s handler p
  handled_step z_undeclare (moves_into this other) p = move_construct_handled this other p
  handled_step z_undeclare (moves_onto this other) p = move_assign_handled this other p
  handled_step z_undeclare (undeclares this result err) p =
      parts_after (undeclare_handled z_undeclare this result err p)
  handled_step z_undeclare (ends this) p = destroy_handled this p
  handled_step z_undeclare (on_base op) p = both (step b op p.bases) (some p.handlers)
  handled_step z_undeclare (on_handler op) p = both (some p.bases) (step h op p.handlers)

  unfoldable pub handled_run : Undeclare → List HandledOp → Parts → Option Parts
  unfolding handled_step
  handled_run z_undeclare [] p = some p
  handled_run z_undeclare (op ∷ ops) p = elim (handled_step z_undeclare op p) [
    | none ↦ none
    | some p' ↦ handled_run z_undeclare ops p'
  ]
