-- ===== src/Shm/Formed.antt =====
-- How the constructor of ShmClientStorage ends.
use zenoh_cpp.Base.{
  ◌≡◌, refl, Bool, List, [], ◌∷◌, Option, none, some, Bool-cases, inl, inr, if◌then◌else◌,
}
use zenoh_cpp.Result.{ZResult, is_ok, Run, returned, threw, ◌>>=◌, result_check}
use zenoh_cpp.Shm.ClientStorage.{
  ClientApi, with_list, add_clients, form_storage, new_client_storage,
}

module _ (api : ClientApi) where
  open api use {
    State, Client, ClientList, Storage, zc_shm_client_list_new, zc_shm_client_list_add_client,
    z_shm_client_storage_new, z_drop,
  }

  -- The state once every client has been added, whatever the codes are.
  abbrev pub with_all : ClientList → List Client → State → State
  with_all list [] s = s
  with_all list (x ∷ xs) s = with_all list xs (zc_shm_client_list_add_client list x s).1

  -- The first client that is refused: the code, and the state then.
  abbrev pub first_refusal : ClientList → List Client → State → Option (ZResult × State)
  first_refusal list [] s = none
  first_refusal list (x ∷ xs) s =
      let (code, s') = zc_shm_client_list_add_client list x s in
      let rest = first_refusal list xs s' in if is_ok code then rest else some (code, s')

  -- How the loop ends with no `err`.
  abbrev refused_or_added : Option (ZResult × State) → State → Run State (Unit {0})
  refused_or_added none s = returned tt none s
  refused_or_added (some (code, s')) s = threw code s'

  add_clients-none :
      (list : ClientList) (clients : List Client) (s : State)
      → add_clients api list clients none s
        ≡ refused_or_added (first_refusal list clients s) (with_all list clients s)
  unfolding add_clients result_check
  add_clients-none list [] s = refl
  add_clients-none list (x ∷ xs) s =
      elim (Bool-cases (is_ok (zc_shm_client_list_add_client list x s).0)) [
        | inl fine ↦
            rw (fine, ◌>>=◌) (add_clients-none list xs (zc_shm_client_list_add_client list x s).1)
        | inr refused ↦ rw (refused, ◌>>=◌) refl
      ]

  add_clients-some :
      (list : ClientList) (clients : List Client) (e : ZResult) (s : State)
      → (last : ZResult) × (add_clients api list clients (some e) s
          ≡ returned tt (some last) (with_all list clients s))
  unfolding add_clients result_check
  add_clients-some list [] e s = (e, refl)
  add_clients-some list (x ∷ xs) e s =
      let (code, s') = zc_shm_client_list_add_client list x s in add_clients-some list xs code s'

  -- The list, the state with it, and what the C library answers once all the clients are in it.
  abbrev pub list_of : State → ClientList
  list_of s = (zc_shm_client_list_new s).0

  abbrev pub formed : List Client → Bool → State → (ZResult × Storage) × State
  formed clients d s =
      z_shm_client_storage_new (list_of s) d
        (with_all (list_of s) clients (zc_shm_client_list_new s).1)

  abbrev pub refusal : List Client → State → Option (ZResult × State)
  refusal clients s = first_refusal (list_of s) clients (zc_shm_client_list_new s).1

  -- The constructor of ShmClientStorage drops its list in every case. With no `err` it throws the code
  -- of the first client that is refused and adds no further one, or, if none is, what
  -- z_shm_client_storage_new answers. With an `err` it adds every client, and the code that it
  -- leaves is that of z_shm_client_storage_new alone: a client that is refused is not reported.
  pub new_client_storage_branches :
      (clients : List Client) (d : Bool) (s : State)
      → ((code : ZResult) (s' : State)
          → refusal clients s ≡ some (code, s')
          → new_client_storage api clients d none s ≡ threw code (z_drop (list_of s) s'))
        × (refusal clients s ≡ none
            → new_client_storage api clients d none s ≡ (
                if is_ok (formed clients d s).0.0
                then returned
                    (formed clients d s).0.1
                    none
                    (z_drop (list_of s) (formed clients d s).1)
                else threw (formed clients d s).0.0 (z_drop (list_of s) (formed clients d s).1)))
        × ((e : ZResult)
            → new_client_storage api clients d (some e) s
              ≡ returned
                  (formed clients d s).0.1
                  (some (formed clients d s).0.0)
                  (z_drop (list_of s) (formed clients d s).1))
  unfolding new_client_storage form_storage with_list result_check
  new_client_storage_branches clients d s =
      let list = list_of s in
      let start = (zc_shm_client_list_new s).1 in
      (
        (λ code s' h. rw (◌>>=◌, add_clients-none list clients start, h) refl),
        (λ h. elim (Bool-cases (is_ok (formed clients d s).0.0)) [
          | inl good ↦ rw (◌>>=◌, add_clients-none list clients start, h, ◌>>=◌, good, ◌>>=◌) refl
          | inr bad ↦ rw (◌>>=◌, add_clients-none list clients start, h, ◌>>=◌, bad, ◌>>=◌) refl
        ]),
        λ e. let (last, added) = add_clients-some list clients e start in rw (◌>>=◌, added) refl,
      )
