-- ===== src/Guest/Blobs.antt =====
-- The blob stores as a function sees them: faasta/src/blob.rs. The bindings to the host are arguments.
use faasta.Prelude.{
  ℕ, zero, suc, Text, text, Bool, true, false, Option, none, some, List, [], ◌++◌, Result, ok, err,
  Action, pure, lift, ◌>>=◌, ◌>>◌, if◌then◌else◌,
}
use faasta.Db.{Bytes}
use faasta.Blobstore.S3.{u64_max}

-- The interfaces `wasi:blobstore`, with containers of a type `C` and streams of names of a type `N`.
-- A body is written into an outgoing value, which is then stored, and finished; a stream hands out so many
-- names at most, and says whether it is at its end.
pub record Wasi (R C N : Type 0) : Type 0 where
  pub container_exists : Text → Action R Text Bool
  pub create_container : Text → Action R Text C
  pub get_container : Text → Action R Text C
  pub has_object : C → Text → Action R Text Bool
  pub get_data : C → Text → ℕ → ℕ → Action R Text Bytes
  pub consume_error : Bytes → Option Text
  pub write_error : Bytes → Option Text
  pub write_data : C → Text → Bytes → Action R Text (Unit {0})
  pub finish_error : Bytes → Option Text
  pub list_objects : C → Action R Text N
  pub read_stream_object_names : ℕ → N → Result Text (List Text × Bool × N)
  pub delete_object : C → Text → Action R Text (Unit {0})

abbrev pub in_context {ℓ} : {A : Type ℓ} → Text → Result Text A → Result Text A
in_context what (ok a) = ok a
in_context what (err e) = err (what ++ e)

-- `.map_err(|err| anyhow!("…: {err}"))`
abbrev pub map_err : {R A : Type 0} → Text → Action R Text A → Action R Text A
map_err what m r = let (a, r') = m r in (in_context what a, r')

abbrev pub or_error {ℓ} : {A : Type ℓ} → Text → Option Text → A → Result Text A
or_error what none a = ok a
or_error what (some e) a = err (what ++ e)

-- The rounds ran out; the code has no such end.
abbrev pub out_of_batches : Text
out_of_batches = text "more batches than rounds"

module _ {R C N : Type 0} (wasi : Wasi R C N) where
  unfoldable pub container_exists : Text → Action R Text Bool
  container_exists name =
      map_err (text "checking container existence: ") (wasi.container_exists name)

  unfoldable pub create_container : Text → Action R Text (Unit {0})
  create_container name = do
    _ ← map_err (text "creating container: ") (wasi.create_container name)
    pure tt

  abbrev pub open_container : Text → Action R Text C
  open_container container = map_err (text "opening container: ") (wasi.get_container container)

  abbrev pub read_whole : C → Text → Action R Text (Option Bytes)
  read_whole container name = do
    incoming ← map_err (text "reading object: ") (wasi.get_data container name 0 u64_max)
    lift
        (or_error (text "consuming incoming value: ") (wasi.consume_error incoming) (some incoming))

  abbrev pub if_there : C → Text → Bool → Action R Text (Option Bytes)
  if_there container name false = pure none
  if_there container name true = read_whole container name

  unfoldable pub get : Text → Text → Action R Text (Option Bytes)
  get container name = do
    opened ← open_container container
    there ← map_err (text "checking object existence: ") (wasi.has_object opened name)
    if_there opened name there

  unfoldable pub put : Text → Text → Bytes → Action R Text (Unit {0})
  put container name contents = do
    opened ← open_container container
    lift (or_error (text "writing data: ") (wasi.write_error contents) tt)
    map_err (text "writing object: ") (wasi.write_data opened name contents)
    lift (or_error (text "finishing write: ") (wasi.finish_error contents) tt)

  -- The loop of `list`, a batch of a hundred names a round.
  unfoldable pub read_names : ℕ → N → List Text → Result Text (List Text)
  read_names zero stream names = err out_of_batches
  read_names (suc rounds) stream names =
      elim (in_context (text "reading object names: ") (wasi.read_stream_object_names 100 stream)) [
        | err e ↦ err e
        | ok read ↦ elim read.1 [
          | true ↦ ok (names ++ read.0)
          | false ↦ read_names rounds read.2 (names ++ read.0)
        ]
      ]

  unfoldable pub list : ℕ → Text → Action R Text (List Text)
  unfolding read_names
  list rounds container = do
    opened ← open_container container
    stream ← map_err (text "listing objects: ") (wasi.list_objects opened)
    lift (read_names rounds stream [])

  unfoldable pub delete : Text → Text → Action R Text (Unit {0})
  delete container name = do
    opened ← open_container container
    map_err (text "deleting object: ") (wasi.delete_object opened name)

  -- `Container::create_if_missing`
  unfoldable pub create_if_missing : Text → Action R Text (Unit {0})
  create_if_missing name = do
    there ← container_exists name
    (if there then pure tt else create_container name)
