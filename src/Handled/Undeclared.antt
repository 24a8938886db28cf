-- ===== src/Handled/Undeclared.antt =====
-- How Handler undeclare(ZResult*) ends: what becomes of the base, and of the handler.
use zenoh_cpp.Base.{ℕ, ◌≡◌, ◌≢◌, true, false, none, some, arith}
use zenoh_cpp.Result.{ZResult, is_ok, returned, threw, result_check}
use zenoh_cpp.Owned.{
  OwnedType, Contract, Memory, set, moved, construct, move_assign, move_construct,
}
use zenoh_cpp.Owned.Moves.{holds_at, moved-holds}
use zenoh_cpp.Handled.{Parts, Undeclare, return_handler, undeclare_handled}

module _ (b h : OwnedType) (handler : Contract h) (z_undeclare : Undeclare b h) where
  -- The bases when the C function has answered.
  abbrev pub undeclared : ℕ → b.Inner → Memory b → Memory b
  undeclared this v m = record {
    objects = set b m.objects this (some (z_undeclare v m.world).0.1);
    world = (z_undeclare v m.world).1;
  }

  -- The handler has gone from `this` to `result`, with all that it held, and no other has changed.
  abbrev pub Delivers : (this result : ℕ) → h.Inner → Memory h → Memory h → Type 0
  Delivers this result x m m' =
      ((r : ℕ) → holds_at h handler (m'.objects result) r ≡ handler.holds x r)
      × ((r : ℕ) → holds_at h handler (m'.objects this) r ≡ 0)
      × ((a : ℕ) → a ≢ this → a ≢ result → m'.objects a ≡ m.objects a)

  deliver :
      (this result : ℕ) (x : h.Inner) (m : Memory h)
      → m.objects this ≡ some x
      → m.objects result ≡ none
      → (m' : Memory h) × (move_construct h result this m ≡ some m') × Delivers this result x m m'
  unfolding move_construct construct move_assign
  deliver this result x m live free = (
    record {
      objects =
          set h (set h (set h m.objects result (some h.null)) result (some (moved h x).0)) this
            (some (moved h x).1);
      world = (h.z_drop h.null m.world).1;
    },
    ground arith,
    (
      (λ r. ground (arith, (moved-holds h handler x r).0)),
      (λ r. ground (arith, (moved-holds h handler x r).1)),
      λ a nt nr. ground arith,
    ),
  )

  -- On an object whose base and handler are alive, and for a free place, undeclare hands the base to
  -- the C function once. When this fails and `err` is null, it throws the code, and the handler stays
  -- where it was. When it succeeds, or with an `err`, which then holds the code, the caller has the
  -- handler with all that it held, the object holds nothing of it, and no other handler has changed.
  pub undeclare_handled_branches :
      (this result : ℕ) (p : Parts b h) (v : b.Inner) (x : h.Inner)
      → p.bases.objects this ≡ some v
      → p.handlers.objects this ≡ some x
      → p.handlers.objects result ≡ none
      → let code = (z_undeclare v p.bases.world).0.0 in
        (is_ok code ≡ false
          → undeclare_handled b h z_undeclare this result none p
            ≡ some (threw code (record p { bases = undeclared this v p.bases })))
        × ((hs : Memory h) × Delivers this result x p.handlers hs
            × (is_ok code ≡ true
                → undeclare_handled b h z_undeclare this result none p
                  ≡ some (
                      returned tt none
                        (record { bases = undeclared this v p.bases; handlers = hs })))
            × ((e : ZResult)
                → undeclare_handled b h z_undeclare this result (some e) p
                  ≡ some (
                      returned tt
                        (some code)
                        (record { bases = undeclared this v p.bases; handlers = hs }))))
  unfolding undeclare_handled return_handler result_check
  undeclare_handled_branches this result p v x live_base live free =
      let (hs, moves, delivers) = deliver this result x p.handlers live free in
      (
        (λ bad. rw (undeclare_handled, live_base, result_check, bad)),
        (
          hs,
          delivers,
          (λ good. rw (undeclare_handled, live_base, result_check, good, return_handler, moves)),
          λ e. rw (undeclare_handled, live_base, return_handler, moves),
        ),
      )
