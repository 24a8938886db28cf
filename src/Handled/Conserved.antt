-- ===== src/Handled/Conserved.antt =====
-- Conservation for the objects with a handler: neither a base nor a handler leaks or is released twice.
use zenoh_cpp.Base.{
  ℕ, ◌+◌, ◌<◌, ◌≡◌, refl, sym, ap, subst, ◌∙◌, List, [], ◌∷◌, Option, none, some, arith,
  Option-cases, Bool-cases, inl, inr,
}
use zenoh_cpp.Result.{ZResult, Run, returned, threw, result_check, is_ok}
use zenoh_cpp.Owned.{
  OwnedType, Contract, Memory, set, Op, constructs, move_constructs, move_assigns, destroys,
  move_construct, step,
}
use zenoh_cpp.Owned.Moves.{held-set, total, IsBelow, step-total}
use zenoh_cpp.Handled.{
  Parts, both, make_handled, move_construct_handled, move_assign_handled, destroy_handled,
  Undeclare, return_handler, undeclare_handled, HandledOp, makes, moves_into, moves_onto,
  undeclares, ends, on_base, on_handler, parts_after, handled_step, handled_run,
}

module _ (b h : OwnedType) (base : Contract b) (handler : Contract h)
    (z_undeclare : Undeclare b h) where
  -- What the functions that undeclare promise: the value is released, whatever code they answer.
  pub record UndeclareContract : Type 0 where
    pub undeclare_leaves :
        (v : b.Inner) (w : b.World) (r : ℕ) → base.holds (z_undeclare v w).0.1 r ≡ 0
    pub undeclare_releases :
        (v : b.Inner) (w : b.World) (r : ℕ)
        → base.released (z_undeclare v w).1 r ≡ base.holds v r + base.released w r

  -- How often a resource of a base, or one of a handler, is held or was released.
  abbrev pub Same : ℕ → Parts b h → Parts b h → Type 0
  Same n p q =
      ((r : ℕ) → total b base n q.bases r ≡ total b base n p.bases r)
      × ((r : ℕ) → total h handler n q.handlers r ≡ total h handler n p.handlers r)

  abbrev SameIf : ℕ → Parts b h → Option (Parts b h) → Type 0
  SameIf n p none = Unit {0}
  SameIf n p (some q) = Same n p q

  module _ (n : ℕ) (released : UndeclareContract) where
    both-Same :
        (p q : Parts b h) (bs : Option (Memory b)) (hs : Option (Memory h))
        → ((m : Memory b) → bs ≡ some m → (r : ℕ) → total b base n m r ≡ total b base n p.bases r)
        → ((m : Memory h)
            → hs ≡ some m
            → (r : ℕ) → total h handler n m r ≡ total h handler n p.handlers r)
        → both b h bs hs ≡ some q
        → Same n p q
    both-Same p q none hs kb kh e = absurd (cc)
    both-Same p q (some bs) none kb kh e = absurd (cc)
    both-Same p q (some bs) (some hs) kb kh e = subst (SameIf n p) e (kb bs refl, kh hs refl)

    -- An operation on the bases and one on the handlers.
    ops-Same :
        (base_op handler_op : Op) (p q : Parts b h)
        → IsBelow b base n base_op
        → IsBelow h handler n handler_op
        → both b h (step b base_op p.bases) (step h handler_op p.handlers) ≡ some q
        → Same n p q
    ops-Same base_op handler_op p q hb hh e =
        both-Same p q (step b base_op p.bases) (step h handler_op p.handlers)
          (λ m e' r. step-total b base base_op n hb p.bases m r e')
          (λ m e' r. step-total h handler handler_op n hh p.handlers m r e') e

    on_base-Same :
        (op : Op) (p q : Parts b h)
        → IsBelow b base n op
        → both b h (step b op p.bases) (some p.handlers) ≡ some q
        → Same n p q
    on_base-Same op p q hb e =
        both-Same p q (step b op p.bases) (some p.handlers)
          (λ m e' r. step-total b base op n hb p.bases m r e')
          (λ m e' r.
            let same : p.handlers ≡ m = ground arith in ap (λ x. total h handler n x r) (sym same))
          e

    on_handler-Same :
        (op : Op) (p q : Parts b h)
        → IsBelow h handler n op
        → both b h (some p.bases) (step h op p.handlers) ≡ some q
        → Same n p q
    on_handler-Same op p q hh e =
        both-Same p q (some p.bases) (step h op p.handlers)
          (λ m e' r.
            let same : p.bases ≡ m = ground arith in ap (λ x. total b base n x r) (sym same))
          (λ m e' r. step-total h handler op n hh p.handlers m r e') e

    -- The base at `this` is undeclared.
    undeclared-Same :
        (this : ℕ) (v : b.Inner) (p : Parts b h)
        → this < n
        → p.bases.objects this ≡ some v
        → let ((code, v'), w) = z_undeclare v p.bases.world in
          Same n p (record p {
            bases = record { objects = set b p.bases.objects this (some v'); world = w };
          })
    undeclared-Same this v p lt live = (
      λ r. ground (
        arith,
        live,
        held-set b base n p.bases.objects this (some (z_undeclare v p.bases.world).0.1) r lt,
        released.undeclare_leaves v p.bases.world r,
        released.undeclare_releases v p.bases.world r,
      ),
      λ r. refl,
    )

    -- The handler moves to the caller, or the call has thrown.
    return_handler-Same :
        (this result : ℕ) (run : Run (Parts b h) (Unit {0})) (p q : Parts b h)
        → this < n
        → result < n
        → SameIf n p (parts_after b h (some run))
        → parts_after b h (return_handler b h this result run) ≡ some q
        → Same n p q
    unfolding return_handler step
    return_handler-Same this result (threw code p') p q ht hr same e = subst (SameIf n p) e same
    return_handler-Same this result (returned u err p') p q ht hr same e =
        elim (Option-cases (move_construct h result this p'.handlers)) [
          | inl gone ↦ absurd (cc (rw (return_handler, gone) at e))
          | inr (hs, made) ↦ subst (SameIf n p) (rw (return_handler, made) at e) (
            same.0,
            λ r.
                step-total h handler (move_constructs result this) n (hr, ht) p'.handlers hs r made
                ∙ same.1 r,
          )
        ]

    -- The result check leaves the parts as they are.
    check-Same :
        (code : ZResult) (err : Option ZResult) (p p' : Parts b h)
        → Same n p p'
        → SameIf n p (parts_after b h (some (result_check code err p')))
    unfolding result_check
    check-Same code none p p' same = elim (Bool-cases (is_ok code)) [
      | inl good ↦ rw (result_check, good) same
      | inr bad ↦ rw (result_check, bad) same
    ]
    check-Same code (some e) p p' same = same

    undeclares-Same :
        (this result : ℕ) (err : Option ZResult) (p q : Parts b h)
        → this < n
        → result < n
        → parts_after b h (undeclare_handled b h z_undeclare this result err p) ≡ some q
        → Same n p q
    unfolding undeclare_handled
    undeclares-Same this result err p q ht hr e = elim (Option-cases (p.bases.objects this)) [
      | inl gone ↦ absurd (cc (rw (undeclare_handled, gone) at e))
      | inr (v, live) ↦
          let ((code, v'), w) = z_undeclare v p.bases.world in
          let p' : Parts b h = record p {
            bases = record { objects = set b p.bases.objects this (some v'); world = w };
          } in
          return_handler-Same this result (result_check code err p') p q ht hr
            (check-Same code err p p' (undeclared-Same this v p ht live))
            (rw (undeclare_handled, live) at e)
    ]

    -- The addresses of an operation are below `n`.
    abbrev pub InRange : HandledOp → Type 0
    InRange (makes this s hnd) = (this < n) × (s < n) × (hnd < n)
    InRange (moves_into this other) = (this < n) × (other < n)
    InRange (moves_onto this other) = (this < n) × (other < n)
    InRange (undeclares this result err) = (this < n) × (result < n)
    InRange (ends this) = this < n
    InRange (on_base op) = IsBelow b base n op
    InRange (on_handler op) = IsBelow h handler n op

    abbrev pub AllInRange : List HandledOp → Type 0
    AllInRange [] = Unit {0}
    AllInRange (op ∷ ops) = InRange op × AllInRange ops

    handled_step-Same :
        (op : HandledOp) (p q : Parts b h)
        → InRange op
        → handled_step b h z_undeclare op p ≡ some q
        → Same n p q
    unfolding handled_step make_handled move_construct_handled move_assign_handled destroy_handled
        step
    handled_step-Same (makes this s hnd) p q (ht, hs, hh) e =
        ops-Same (constructs this (some s)) (move_constructs this hnd) p q
          (ht, λ a e'. ground arith) (ht, hh) e
    handled_step-Same (moves_into this other) p q lt e =
        ops-Same (move_constructs this other) (move_constructs this other) p q lt lt e
    handled_step-Same (moves_onto this other) p q lt e =
        ops-Same (move_assigns this other) (move_assigns this other) p q lt lt e
    handled_step-Same (undeclares this result err) p q (ht, hr) e =
        undeclares-Same this result err p q ht hr e
    handled_step-Same (ends this) p q lt e = ops-Same (destroys this) (destroys this) p q lt lt e
    handled_step-Same (on_base op) p q lt e = on_base-Same op p q lt e
    handled_step-Same (on_handler op) p q lt e = on_handler-Same op p q lt e

    -- Along every sequence of constructions of objects with a handler from a base and a handler, of
    -- their moves, undeclarations and destructions, and of operations of bases and handlers that stand
    -- alone, all below `n` and with no undefined step, whether undeclaring returns, writes an error to
    -- `*err` or throws: the number of times that a resource of a base is held or was released stays
    -- the same, and so does that of a handler. Neither leaks, on no path of an error, and neither is
    -- released twice.
    pub handled_run-conserves :
        (ops : List HandledOp) (p q : Parts b h)
        → AllInRange ops
        → handled_run b h z_undeclare ops p ≡ some q
        → Same n p q
    unfolding handled_run
    handled_run-conserves [] p q below e = subst (SameIf n p) e ((λ r. refl), λ r. refl)
    handled_run-conserves (op ∷ ops) p q (lt, below) e =
        elim (Option-cases (handled_step b h z_undeclare op p)) [
          | inl gone ↦ absurd (cc (rw (handled_run, gone) at e))
          | inr (p', made) ↦
              let first = handled_step-Same op p p' lt made in
              let rest = handled_run-conserves ops p' q below (rw (handled_run, made) at e) in
              ((λ r. rest.0 r ∙ first.0 r), λ r. rest.1 r ∙ first.1 r)
        ]
