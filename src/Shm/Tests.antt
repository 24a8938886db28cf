-- ===== src/Shm/Tests.antt =====
-- A receiver that notes what it gets, and a library that refuses the client 2.
use zenoh_cpp.Base.{ℕ, suc, ◌≡◌, refl, List, [], ◌∷◌, ◌++◌, false, none, some, ◌==◌, if◌then◌else◌}
use zenoh_cpp.Result.{ZResult, z_ok, other, returned, threw, is_ok}
use zenoh_cpp.Owned.Numbered.{numbered, numbered-Contract}
use zenoh_cpp.Shm.Alloc.{
  CResult, status_ok, BufLayoutAllocResult, allocated, alloc_failed, layout_failed,
  from_layout_alloc,
}
use zenoh_cpp.Shm.Async.{
  Receiver, Receivers, AsyncCall, AsyncUse, completes, releases, alloc_async, run_async, use_async,
}
use zenoh_cpp.Shm.Received.{StandsFor, alloc_async-delivers}
use zenoh_cpp.Shm.ClientStorage.{ClientApi, new_client_storage}
use zenoh_cpp.Shm.Formed.{refusal, formed, new_client_storage_branches}

-- The codes of a result.
abbrev noted : BufLayoutAllocResult ℕ → List ℕ
noted (allocated b) = 0 ∷ b ∷ []
noted (alloc_failed e) = 1 ∷ e ∷ []
noted (layout_failed e) = 2 ∷ e ∷ []

abbrev buffer_seven : CResult ℕ
buffer_seven = record { status = status_ok; buf = 7; alloc_error = 0; layout_error = 0 }

abbrev noting : Receiver (List ℕ) (CResult ℕ) (BufLayoutAllocResult ℕ)
noting = record { result_slot = record buffer_seven { buf = 0 }; on_result = λ r u. u ++ noted r }

abbrev program : Receivers (List ℕ) (CResult ℕ) (BufLayoutAllocResult ℕ)
program = record { user = []; objects = λ a. if 4 == a then some noting else none }

abbrev accept : AsyncCall → ℕ → ZResult × ℕ
accept call l = (z_ok, suc l)

alloc_async-delivers_example :
    (call : AsyncCall) × (alloc_async accept (some 4) 0 ≡ some (call, accept call 0))
    × (q : Receivers (List ℕ) (CResult ℕ) (BufLayoutAllocResult ℕ)) × (run_async
          (from_layout_alloc numbered)
          call
          (completes buffer_seven ∷ releases ∷ [])
          program
        ≡ some q)
    × (v : BufLayoutAllocResult ℕ) × (q.user ≡ noting.on_result v program.user)
    × StandsFor numbered numbered-Contract buffer_seven v
    × ((a : ℕ) → q.objects a ≡ (if 4 == a then none else program.objects a))
    × ((u : AsyncUse (CResult ℕ)) → use_async (from_layout_alloc numbered) call u q ≡ none)
alloc_async-delivers_example =
    alloc_async-delivers numbered numbered-Contract accept 0 4 noting buffer_seven program refl

-- Clients are numbers, a list is in the state.
abbrev clients : ClientApi
clients = record {
  State = List ℕ;
  Client = ℕ;
  ClientList = Unit {0};
  Storage = List ℕ;
  zc_shm_client_list_new = λ s. (tt, []);
  zc_shm_client_list_add_client = λ l x s. if x == 2 then (other 5, s) else (z_ok, s ++ x ∷ []);
  z_shm_client_storage_new = λ l d s. ((z_ok, s), s);
  z_drop = λ l s. [];
}

-- The second client is refused: the constructor throws, or returns the storage of the others and Z_OK.
new_client_storage_branches_example :
    let xs : List ℕ = 1 ∷ 2 ∷ 3 ∷ [] in
    ((code : ZResult) (s' : List ℕ)
      → refusal clients xs [] ≡ some (code, s')
      → new_client_storage clients xs false none [] ≡ threw code [])
    × (refusal clients xs [] ≡ none
        → new_client_storage clients xs false none [] ≡ (
            if is_ok (formed clients xs false []).0.0
            then returned (formed clients xs false []).0.1 none []
            else threw (formed clients xs false []).0.0 []))
    × ((e : ZResult)
        → new_client_storage clients xs false (some e) [] ≡ returned (1 ∷ 3 ∷ []) (some z_ok) [])
new_client_storage_branches_example = new_client_storage_branches clients (1 ∷ 2 ∷ 3 ∷ []) false []
