-- ===== src/Session/Refusing.antt =====
-- A library that refuses every call, drops the closure it was given and counts the calls; the data
-- on it are numbers.
use zenoh_cpp.Base.{ℕ, suc, ◌+◌, refl, List, [], ◌∷◌, ◌++◌, Option, none, some}
use zenoh_cpp.Result.{other}
use zenoh_cpp.Closures.{Process, delete_from_context}
use zenoh_cpp.Closures.Lifetime.{IsFresh}
use zenoh_cpp.Session.Requests.{AnyClosure, callback, moved_closure, World, Library, Contract}

abbrev from_some : {A : Type 0} → A → Option A → A
from_some a none = a
from_some a (some b) = b

unfoldable pub drop_moved : Option (AnyClosure ℕ) → Process (List ℕ) ℕ → Process (List ℕ) ℕ
unfolding delete_from_context
drop_moved (some (callback k)) p = from_some p (delete_from_context k.context p)
drop_moved c p = p

abbrev pub refusing : Library (List ℕ) ℕ
refusing = record {
  State = ℕ;
  Obj = ℕ;
  Pod = ℕ;
  invoke = λ r w. (
    (other 1, 0),
    record { process = drop_moved (moved_closure r) w.process; library = suc w.library },
  );
  z_drop = λ x w. record w { library = w.library + x };
  channel_new = λ kind arg n w. ((n, suc n), w);
}

pub refusing-Contract : Contract refusing
unfolding delete_from_context drop_moved
refusing-Contract = record {
  drops_on_error = λ r k w p moved deleted fails. rw (moved, drop_moved, deleted);
}

abbrev pub start : World (List ℕ) ℕ ℕ
start = record { process = record { user = []; next = 0; closures = λ a. none }; library = 0 }

pub start-IsFresh : IsFresh start.process
start-IsFresh = record { above = λ a h. refl }

abbrev pub on_sample : ℕ → List ℕ → List ℕ
on_sample v u = u ++ v ∷ []

abbrev pub on_drop : List ℕ → List ℕ
on_drop u = u ++ 0 ∷ []
