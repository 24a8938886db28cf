-- ===== src/Closures/Lifetime.antt =====
-- A closure that the C library calls any number of times and then drops once: every call reaches the
-- C++ callback, `drop` runs once and last, and the heap is as it was before.
use zenoh_cpp.Base.{
  ℕ, suc, ◌≤◌, ◌≡◌, ◌≢◌, refl, List, [], ◌∷◌, true, Option, none, some, arith, ◌==◌, if◌then◌else◌,
  subst, Option-cases, inl, inr,
}
use zenoh_cpp.Closures.{
  same_arg, Closure, Process, update, into_context, CClosure, CallFunction, cast_to, Use, calls,
  drops, use_closure, run,
}

-- Every address in use is below `next`.
pub record IsFresh {U V : Type 0} (p : Process U V) : Type 0 where
  pub above : (a : ℕ) → p.next ≤ a → p.closures a ≡ none

-- The calls with the values `vs` in order, and then the drop.
abbrev pub calls_then_drop : {V : Type 0} → CClosure → List V → List (CClosure × Use V)
calls_then_drop c [] = (c, drops) ∷ []
calls_then_drop c (v ∷ vs) = (c, calls v) ∷ calls_then_drop c vs

-- How often a history uses the context `a`, and how often it drops it.
abbrev pub uses_of : {V : Type 0} → ℕ → List (CClosure × Use V) → ℕ
uses_of a [] = 0
uses_of a ((c, u) ∷ rest) = if c.context == a then suc (uses_of a rest) else uses_of a rest

abbrev pub drops_of : {V : Type 0} → ℕ → List (CClosure × Use V) → ℕ
drops_of a [] = 0
drops_of a ((c, calls v) ∷ rest) = drops_of a rest
drops_of a ((c, drops) ∷ rest) = if c.context == a then suc (drops_of a rest) else drops_of a rest

drops-le-uses : {V : Type 0} (a : ℕ) (tr : List (CClosure × Use V)) → drops_of a tr ≤ uses_of a tr
drops-le-uses a [] = omega arith
drops-le-uses a ((c, calls v) ∷ rest) = ground (arith, drops-le-uses a rest)
drops-le-uses a ((c, drops) ∷ rest) = ground (arith, drops-le-uses a rest)

module _ {U V : Type 0} where
  -- What the C++ program sees of that.
  abbrev pub seen : Closure U V → List V → U → U
  seen c [] u = c.drop u
  seen c (v ∷ vs) u = seen c vs (c.call v u)

  run-calls_then_drop :
      (k : CClosure) (c : Closure U V) (vs : List V) (p : Process U V)
      → p.closures k.context ≡ some c
      → same_arg (cast_to k.function) c.arg ≡ true
      → run (calls_then_drop k vs) p
        ≡ some (record p { user = seen c vs p.user; closures = update p.closures k.context none })
  unfolding run use_closure
  run-calls_then_drop k c [] p e h = rw (e, run)
  run-calls_then_drop k c (v ∷ vs) p e h =
      rw (e, h, run) (run-calls_then_drop k c vs (record p { user = c.call v p.user }) e h)

  -- A new closure, called with `vs` by a function that casts to its class, and dropped: no step is
  -- undefined, the program sees the calls in order and then one drop, every address holds what it
  -- held before, and the program's other fields are as after `new`.
  pub run-into_context :
      (f : CallFunction) (c : Closure U V) (vs : List V) (p : Process U V)
      → IsFresh p
      → same_arg (cast_to f) c.arg ≡ true
      → (q : Process U V) × (run
            (calls_then_drop (record { function = f; context = (into_context c p).0 }) vs)
            (into_context c p).1
          ≡ some q)
        × (q.user ≡ seen c vs p.user)
        × (q.next ≡ suc p.next)
        × ((a : ℕ) → q.closures a ≡ p.closures a)
  unfolding into_context
  run-into_context f c vs p fresh h = (
    record p {
      user = seen c vs p.user;
      next = suc p.next;
      closures = update (update p.closures p.next (some c)) p.next none;
    },
    run-calls_then_drop (record { function = f; context = p.next }) c vs _ (ground arith) h,
    refl,
    refl,
    λ a. ground (arith, fresh.above a),
  )

  run-cons :
      (c : CClosure) (u : Use V) (rest : List (CClosure × Use V)) (p q : Process U V)
      → run ((c, u) ∷ rest) p ≡ some q
      → (p' : Process U V) × (use_closure c u p ≡ some p') × (run rest p' ≡ some q)
  unfolding run
  run-cons c u rest p q e = split (use_closure c u p) refl
    where
      split :
          (o : Option (Process U V))
          → use_closure c u p ≡ o
          → (p' : Process U V) × (use_closure c u p ≡ some p') × (run rest p' ≡ some q)
      split none h = absurd (cc (rw (h, run) at e))
      split (some p') h = (p', h, (rw (h, run) at e))

  -- A use that is defined finds its context live, and brings no address back to life.
  use_closure_dead :
      (c : CClosure) (u : Use V) (a : ℕ) (p p' : Process U V)
      → p.closures a ≡ none
      → use_closure c u p ≡ some p'
      → (c.context ≢ a) × (p'.closures a ≡ none)
  unfolding use_closure
  use_closure_dead c (calls v) a p p' dead e = ((λ h. ground arith), ground arith)
  use_closure_dead c drops a p p' dead e = ((λ h. ground arith), ground arith)

  use_closure_drops :
      (c : CClosure) (p p' : Process U V)
      → use_closure c drops p ≡ some p'
      → p'.closures c.context ≡ none
  unfolding use_closure
  use_closure_drops c p p' e = ground arith

  run_dead :
      (tr : List (CClosure × Use V)) (a : ℕ) (p q : Process U V)
      → p.closures a ≡ none
      → run tr p ≡ some q
      → uses_of a tr ≡ 0
  run_dead [] a p q dead e = refl
  run_dead ((c, u) ∷ rest) a p q dead e =
      let (p', e₁, e₂) = run-cons c u rest p q e in
      let (ne, dead') = use_closure_dead c u a p p' dead e₁ in
      ground (arith, run_dead rest a p' q dead' e₂)

  run_drops_once :
      (tr : List (CClosure × Use V)) (a : ℕ) (p q : Process U V)
      → run tr p ≡ some q
      → drops_of a tr ≤ 1
  run_drops_once [] a p q e = omega arith
  run_drops_once ((c, calls v) ∷ rest) a p q e =
      let (p', e₁, e₂) = run-cons c (calls v) rest p q e in run_drops_once rest a p' q e₂
  run_drops_once ((c, drops) ∷ rest) a p q e =
      let (p', e₁, e₂) = run-cons c drops rest p q e in
      let gone = use_closure_drops c p p' e₁ in
      ground (
        arith,
        run_drops_once rest a p' q e₂,
        run_dead rest c.context p' q gone e₂,
        drops-le-uses c.context rest,
      )

  -- What the program hears of a history of uses, by the closures that stood at the addresses at first.
  abbrev pub heard : (ℕ → Option (Closure U V)) → List (CClosure × Use V) → U → U
  heard f [] u = u
  heard f ((c, calls v) ∷ rest) u =
      heard f rest (elim (f c.context) [ none ↦ u | some k ↦ k.call v u ])
  heard f ((c, drops) ∷ rest) u = heard f rest (elim (f c.context) [ none ↦ u | some k ↦ k.drop u ])

  -- The closures that are alive are still those that stood there at first.
  abbrev Remain : (ℕ → Option (Closure U V)) → Process U V → Type 0
  Remain f p = (a : ℕ) (k : Closure U V) → p.closures a ≡ some k → f a ≡ some k

  use_closure_live :
      (c : CClosure) (u : Use V) (p p' : Process U V)
      → use_closure c u p ≡ some p'
      → (k : Closure U V) × (p.closures c.context ≡ some k)
  unfolding use_closure
  use_closure_live c u p p' e = elim (Option-cases (p.closures c.context)) [
    | inr live ↦ live
    | inl gone ↦ absurd (dead u e gone)
  ]
    where
      dead : (u' : Use V) → use_closure c u' p ≡ some p' → p.closures c.context ≡ none → ⊥
      dead (calls v) e' gone = ground arith
      dead drops e' gone = ground arith

  heard_from :
      (tr : List (CClosure × Use V)) (f : ℕ → Option (Closure U V)) (p q : Process U V)
      → Remain f p
      → run tr p ≡ some q
      → q.user ≡ heard f tr p.user
  unfolding run use_closure
  heard_from [] f p q remain e = ground arith
  heard_from ((c, calls v) ∷ rest) f p q remain e =
      let (p', e₁, e₂) = run-cons c (calls v) rest p q e in
      let (k, live) = use_closure_live c (calls v) p p' e₁ in
      rw (remain c.context k live) (
        subst (λ u. q.user ≡ heard f rest u) (ground arith)
          (heard_from rest f p' q (λ a k' h. remain a k' (ground arith)) e₂))
  heard_from ((c, drops) ∷ rest) f p q remain e =
      let (p', e₁, e₂) = run-cons c drops rest p q e in
      let (k, live) = use_closure_live c drops p p' e₁ in
      rw (remain c.context k live) (
        subst (λ u. q.user ≡ heard f rest u) (ground arith)
          (heard_from rest f p' q (λ a k' h. remain a k' (ground arith)) e₂))

  -- In every history of uses with no undefined step, whatever closures it interleaves: the program
  -- hears every call and every drop, in order, each by the closure that stood at its context at first;
  -- and a context is dropped at most once.
  pub run-heard :
      (tr : List (CClosure × Use V)) (p q : Process U V)
      → run tr p ≡ some q
      → (q.user ≡ heard p.closures tr p.user) × ((a : ℕ) → drops_of a tr ≤ 1)
  run-heard tr p q e = (heard_from tr p.closures p q (λ a k h. h) e, λ a. run_drops_once tr a p q e)
