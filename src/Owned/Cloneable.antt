-- ===== src/Owned/Cloneable.antt =====
-- The classes that are copied and assigned as KeyExpr is: Encoding (encoding.hxx), Hello (hello.hxx), Link
-- (link.hxx), Transport (transport.hxx) and CancellationToken (cancellation.hxx).
use zenoh_cpp.Base.{Option}
use zenoh_cpp.Owned.{OwnedType, Memory}
use zenoh_cpp.Owned.Copies.{Clone, CopyOp, copy_step}

-- Their owned C types, and the functions that clone a value.
pub record CloneApi : Type 1 where
  pub z_owned_encoding_t : OwnedType
  pub z_owned_hello_t : OwnedType
  pub z_owned_link_t : OwnedType
  pub z_owned_transport_t : OwnedType
  pub z_owned_cancellation_token_t : OwnedType
  pub z_encoding_clone : Clone z_owned_encoding_t
  pub z_hello_clone : Clone z_owned_hello_t
  pub z_link_clone : Clone z_owned_link_t
  pub z_transport_clone : Clone z_owned_transport_t
  pub z_cancellation_token_clone : Clone z_owned_cancellation_token_t

module _ (api : CloneApi) where
  abbrev pub encoding_copy_step :
      CopyOp → Memory api.z_owned_encoding_t → Option (Memory api.z_owned_encoding_t)
  encoding_copy_step = copy_step api.z_owned_encoding_t api.z_encoding_clone

  abbrev pub hello_copy_step :
      CopyOp → Memory api.z_owned_hello_t → Option (Memory api.z_owned_hello_t)
  hello_copy_step = copy_step api.z_owned_hello_t api.z_hello_clone

  abbrev pub link_copy_step :
      CopyOp → Memory api.z_owned_link_t → Option (Memory api.z_owned_link_t)
  link_copy_step = copy_step api.z_owned_link_t api.z_link_clone

  abbrev pub transport_copy_step :
      CopyOp → Memory api.z_owned_transport_t → Option (Memory api.z_owned_transport_t)
  transport_copy_step = copy_step api.z_owned_transport_t api.z_transport_clone

  abbrev pub cancellation_token_copy_step :
      CopyOp
      → Memory api.z_owned_cancellation_token_t
      → Option (Memory api.z_owned_cancellation_token_t)
  cancellation_token_copy_step =
      copy_step api.z_owned_cancellation_token_t api.z_cancellation_token_clone
