-- ===== src/Blobstore.antt =====
-- The blob stores of the functions: `TenantBlobstore`, `TenantContainer` and `S3Container` of
-- server/src/wasm_function.rs. S3 and the store in memory are arguments, with states of a type `R` of
-- their own.
pub mod S3
pub mod Listing
pub mod Tenants
pub mod Objects
use faasta.Prelude.{
  ℕ, Text, text, Bool, true, false, Option, none, some, List, ◌++◌, Result, ok, err, Action, pure,
  fail, lift, ◌>>=◌, ◌>>◌,
}
use faasta.Db.{Bytes}
use faasta.Tenant.{TenantId, tenant, resource_name, guest_resource_name}
use faasta.Blobstore.S3.{ObjectStore, S3Container, ContainerMetadata, ObjectMetadata}

-- The trait `Container`.
pub record Container (R : Type 0) : Type 0 where
  pub name : Text
  pub info : Result Text ContainerMetadata
  pub get_data : Text → ℕ → ℕ → Action R Text (Option Bytes)
  pub write_data : Text → Bytes → Action R Text (Unit {0})
  pub list_objects : Action R Text (List Text)
  pub delete_object : Text → Action R Text (Unit {0})
  pub has_object : Text → Action R Text Bool
  pub object_info : Text → Action R Text ObjectMetadata

-- The store in memory, by host names.
pub record MemoryStore (R : Type 0) : Type 0 where
  pub create_container : Text → Action R Text (Container R)
  pub get_container : Text → Action R Text (Container R)
  pub delete_container : Text → Action R Text (Unit {0})
  pub container_exists : Text → Action R Text Bool

pub data BlobstoreProvider (R : Type 0) : Type 0 where
  memory : MemoryStore R → BlobstoreProvider R
  s3 : ObjectStore R → BlobstoreProvider R

abbrev pub renamed : Text → Result Text ContainerMetadata → Result Text ContainerMetadata
renamed guest_name (ok info) = ok (record info { name = guest_name })
renamed guest_name (err e) = err e

abbrev pub container_of : TenantId → Text → S3Container
container_of id name = record { tenant = id; guest_name = guest_resource_name name }

-- One use that a guest makes of a container.
pub data Call : Type 0 where
  create remove exists list : Call
  get : Text → ℕ → ℕ → Call
  write : Text → Bytes → Call
  delete has info : Text → Call

module _ {R : Type 0} where
  -- `ensure!`
  abbrev pub ensure : Bool → Text → Action R Text (Unit {0})
  ensure true e = pure tt
  ensure false e = fail e

  -- `TenantContainer`: the same container under the guest's name for it
  abbrev pub tenant_container : Text → Container R → Container R
  tenant_container guest_name container = record container {
    name = guest_name;
    info = renamed guest_name container.info;
    object_info = λ name.
        container.object_info name >>= λ info. pure (record info { container = guest_name });
  }

  -- `S3Container` behind the trait; a listing is given so many rounds.
  abbrev pub s3_container : ObjectStore R → ℕ → S3Container → Container R
  s3_container store rounds c = record {
    name = c.guest_name;
    info = ok (record { name = c.guest_name; created_at = 0 });
    get_data = S3.get_data store c;
    write_data = S3.write_data store c;
    list_objects = S3.list_objects store rounds c;
    delete_object = S3.delete_object store c;
    has_object = S3.has_object store c;
    object_info = S3.object_info store c;
  }

  -- `TenantBlobstore`
  unfoldable pub create_container :
      TenantId → BlobstoreProvider R → ℕ → Text → Action R Text (Container R)
  create_container id (memory store) rounds name = do
    container ← store.create_container (resource_name id name)
    pure (tenant_container (guest_resource_name name) container)
  create_container id (s3 store) rounds name = do
    S3.ensure_marker store (container_of id name)
    pure (s3_container store rounds (container_of id name))

  unfoldable pub get_container :
      TenantId → BlobstoreProvider R → ℕ → Text → Action R Text (Container R)
  get_container id (memory store) rounds name = do
    container ← store.get_container (resource_name id name)
    pure (tenant_container (guest_resource_name name) container)
  get_container id (s3 store) rounds name = do
    there ← S3.exists store (container_of id name)
    ensure there (text "container not found")
    pure (s3_container store rounds (container_of id name))

  unfoldable pub delete_container :
      TenantId → BlobstoreProvider R → ℕ → Text → Action R Text (Unit {0})
  delete_container id (memory store) rounds name = store.delete_container (resource_name id name)
  delete_container id (s3 store) rounds name = S3.clear store rounds (container_of id name)

  unfoldable pub container_exists : TenantId → BlobstoreProvider R → Text → Action R Text Bool
  container_exists id (memory store) name = store.container_exists (resource_name id name)
  container_exists id (s3 store) name = S3.exists store (container_of id name)

  abbrev pub ignore : {A : Type 0} → Action R Text A → Action R Text (Unit {0})
  ignore m = m >>= λ _. pure tt

  abbrev on_container :
      TenantId
      → BlobstoreProvider R
      → ℕ
      → Text
      → (Container R → Action R Text (Unit {0}))
      → Action R Text (Unit {0})
  on_container id provider rounds name f = get_container id provider rounds name >>= f

  unfoldable pub blob_call : Text → BlobstoreProvider R → ℕ → Text → Call → Action R Text (Unit {0})
  blob_call function_name provider rounds name create =
      ignore (create_container (tenant function_name) provider rounds name)
  blob_call function_name provider rounds name remove =
      delete_container (tenant function_name) provider rounds name
  blob_call function_name provider rounds name exists =
      ignore (container_exists (tenant function_name) provider name)
  blob_call function_name provider rounds name list =
      on_container (tenant function_name) provider rounds name (λ c. ignore c.list_objects)
  blob_call function_name provider rounds name (get object start end) =
      on_container (tenant function_name) provider rounds name
        (λ c. ignore (c.get_data object start end))
  blob_call function_name provider rounds name (write object bytes) =
      on_container (tenant function_name) provider rounds name (λ c. c.write_data object bytes)
  blob_call function_name provider rounds name (delete object) =
      on_container (tenant function_name) provider rounds name (λ c. c.delete_object object)
  blob_call function_name provider rounds name (has object) =
      on_container (tenant function_name) provider rounds name (λ c. ignore (c.has_object object))
  blob_call function_name provider rounds name (info object) =
      on_container (tenant function_name) provider rounds name (λ c. ignore (c.object_info object))
