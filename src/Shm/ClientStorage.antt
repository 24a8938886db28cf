-- ===== src/Shm/ClientStorage.antt =====
-- shm/client_storage/client_storage.hxx: the constructor of ShmClientStorage from a range of clients.
use zenoh_cpp.Base.{Bool, List, [], ◌∷◌}
use zenoh_cpp.Result.{ZResult, Run, returned, threw, M, pure, ◌>>=◌, ◌>>◌, c_call, result_check}

-- The C functions; a client list is a handle, its content is in the state.
pub record ClientApi : Type 1 where
  pub State : Type 0
  pub Client : Type 0
  pub ClientList : Type 0
  pub Storage : Type 0
  pub zc_shm_client_list_new : State → ClientList × State
  pub zc_shm_client_list_add_client : ClientList → Client → State → ZResult × State
  pub z_shm_client_storage_new : ClientList → Bool → State → (ZResult × Storage) × State
  pub z_drop : ClientList → State → State

module _ (api : ClientApi) where
  open api use {
    State, Client, ClientList, Storage, zc_shm_client_list_new, zc_shm_client_list_add_client,
    z_shm_client_storage_new, z_drop,
  }

  -- The destructor of the local `list`, on return and on throw.
  unfoldable pub with_list : {A : Type 0} → ClientList → Run State A → Run State A
  with_list list (returned a err s) = returned a err (z_drop list s)
  with_list list (threw code s) = threw code (z_drop list s)

  -- The loop over the range.
  unfoldable pub add_clients : ClientList → List Client → M State (Unit {0})
  unfolding result_check
  add_clients list [] = pure tt
  add_clients list (x ∷ xs) = do
    res ← c_call (zc_shm_client_list_add_client list x)
    result_check res
    add_clients list xs

  unfoldable pub form_storage : ClientList → List Client → Bool → M State Storage
  unfolding add_clients
  form_storage list clients add_default_client_set = do
    add_clients list clients
    (res, storage) ← c_call (z_shm_client_storage_new list add_default_client_set)
    result_check res
    pure storage

  unfoldable pub new_client_storage : List Client → Bool → M State Storage
  unfolding with_list form_storage
  new_client_storage clients add_default_client_set err s =
      let (list, s') = zc_shm_client_list_new s in
      with_list list (form_storage list clients add_default_client_set err s')
