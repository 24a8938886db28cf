-- ===== src/Session/InfoTests.antt =====
-- A library that lists 4 and 5 whatever it is asked for.
use zenoh_cpp.Base.{ℕ, ◌≡◌, refl, [], ◌∷◌, Option, none, some}
use zenoh_cpp.Result.{ZResult, z_ok, returned}
use zenoh_cpp.Closures.{run}
use zenoh_cpp.Closures.Lifetime.{IsFresh, calls_then_drop}
use zenoh_cpp.Session.Info.{
  z_info_peers_zid, InfoWorld, InfoLibrary, InfoContract, fetch, call_answer, fetch_lem,
}

abbrev from_some : {A : Type 0} → A → Option A → A
from_some a none = a
from_some a (some b) = b

abbrev four_and_five : InfoLibrary ℕ ℕ
four_and_five = record {
  State = ℕ;
  Obj = ℕ;
  inform = λ r k w. (
    z_ok,
    record w { process = from_some w.process (run (calls_then_drop k (4 ∷ 5 ∷ [])) w.process) },
  );
  listed = λ r w. 4 ∷ 5 ∷ [];
}

four_and_five-InfoContract : InfoContract four_and_five
four_and_five-InfoContract = record { calls_each = λ r k w p ok e. rw (e, from_some) }

abbrev start : InfoWorld ℕ ℕ ℕ
start = record {
  process = record { user = record { out = 9 ∷ []; program = 3 }; next = 0; closures = λ a. none };
  library = 0;
}

start-IsFresh : IsFresh start.process
start-IsFresh = record { above = λ a h. refl }

fetch_lem_example :
    let w' = (call_answer four_and_five (z_info_peers_zid 1) start).1 in
    (fetch four_and_five (z_info_peers_zid 1) none start ≡ returned (4 ∷ 5 ∷ []) none w')
    × ((e : ZResult)
        → fetch four_and_five (z_info_peers_zid 1) (some e) start
          ≡ returned (4 ∷ 5 ∷ []) (some z_ok) w')
    × (w'.process.user.program ≡ 3)
    × ((a : ℕ) → w'.process.closures a ≡ none)
fetch_lem_example =
    fetch_lem four_and_five four_and_five-InfoContract (z_info_peers_zid 1) start start-IsFresh refl
