-- ===== src/Transfer.antt =====
-- multy/src/common/FileDataTransferTask.h, FileNameTransferTask.h, FileTransferTask.h and
-- BufferTransferTask.h, and `Run` of multy/src/Network/NetworkTask.cpp: the tasks, over any reader and writer. What these do to the world `W`, and
-- which exception they throw, is up to them; a task is given `none` for a null pointer. The messages
-- on the console are left out.
pub mod Script
pub mod Runs
pub mod Tasks
use multithreading_io.Base.{
  ℕ, zero, suc, Bool, true, false, Option, none, some, List, [], ◌∷◌, Exception, runtime_error,
  invalid_argument,
}

-- `unfinished` is a loop that has used up its rounds.
pub data Outcome (A : Type 0) : Type 0 where
  done : A → Outcome A
  thrown : Exception → Outcome A
  unfinished : Outcome A

-- Code that changes the world and returns a value or throws. What it did before it throws stays.
abbrev pub M : Type 0 → Type 0 → Type 0
M W A = W → Outcome A × W

module _ {W : Type 0} where
  infixl 5 ◌>>=◌ ◌>>◌
  abbrev pub ◌>>=◌ : {A B : Type 0} → M W A → (A → M W B) → M W B
  ◌>>=◌ m f w = elim (m w).0 [
    | done a ↦ f a (m w).1
    | thrown e ↦ (thrown e, (m w).1)
    | unfinished ↦ (unfinished, (m w).1)
  ]

  abbrev pub ◌>>◌ : {B : Type 0} → M W (Unit {0}) → M W B → M W B
  m >> k = m >>= λ _. k

  abbrev pub pure : {A : Type 0} → A → M W A
  pure a w = (done a, w)

  abbrev pub raise : {A : Type 0} → Exception → M W A
  raise e w = (thrown e, w)

  abbrev pub run_out : {A : Type 0} → M W A
  run_out w = (unfinished, w)

  -- `catch (std::runtime_error&)`.
  abbrev pub handle : M W (Unit {0}) → Exception → M W (Unit {0})
  handle handler runtime_error = handler
  handle handler e = raise e

  abbrev pub resume : M W (Unit {0}) → Outcome (Unit {0}) × W → Outcome (Unit {0}) × W
  resume handler (done _, w) = (done tt, w)
  resume handler (thrown e, w) = handle handler e w
  resume handler (unfinished, w) = (unfinished, w)

  abbrev pub catch_runtime : M W (Unit {0}) → M W (Unit {0}) → M W (Unit {0})
  catch_runtime body handler w = resume handler (body w)

-- The interfaces that the tasks use: IReader.h, IWriter.h, IWriteDataAccess.h, IReadDataAccess.h.
pub record WriteAccess (W : Type 0) : Type 0 where
  pub write : List ℕ → M W (Unit {0})
  pub stop : M W (Unit {0})

pub record ReadAccess (W : Type 0) : Type 0 where
  pub read : M W (List ℕ)
  pub stop : M W (Unit {0})
  pub is_running : M W Bool

module _ {W : Type 0} where
  -- The loop of `FileDataTransferTask::Run` on the span just read, and the `Stop` behind it.
  unfoldable pub pump : ℕ → WriteAccess W → M W (List ℕ) → List ℕ → M W (Unit {0})
  pump fuel access read [] = access.stop
  pump zero access read (x ∷ xs) = run_out
  pump (suc fuel) access read (x ∷ xs) = do
    access.write (x ∷ xs)
    next ← read
    pump fuel access read next

  -- `FileDataTransferTask::Run`.
  unfoldable pub run_data_transfer : ℕ → WriteAccess W → Option (M W (List ℕ)) → M W (Unit {0})
  run_data_transfer fuel access none = raise invalid_argument
  run_data_transfer fuel access (some read) =
      catch_runtime (read >>= pump fuel access read) access.stop

  write_name : (List ℕ → M W (Unit {0})) → List ℕ → M W (Unit {0})
  write_name write [] = pure tt
  write_name write (x ∷ xs) = write (x ∷ xs)

  -- `FileNameTransferTask::Run`.
  unfoldable pub run_name_transfer :
      Option (List ℕ → M W (Unit {0})) → Option (M W (List ℕ)) → M W (Unit {0})
  unfolding write_name
  run_name_transfer none reader = raise invalid_argument
  run_name_transfer (some write) none = raise invalid_argument
  run_name_transfer (some write) (some read) = catch_runtime (read >>= write_name write) (pure tt)

  -- `FileTransferTask::Run`.
  unfoldable pub run_file_transfer :
      Option (M W (Unit {0})) → Option (M W (Unit {0})) → M W (Unit {0})
  run_file_transfer none data_transfer = raise invalid_argument
  run_file_transfer (some name_transfer) none = raise invalid_argument
  run_file_transfer (some name_transfer) (some data_transfer) =
      catch_runtime (do name_transfer; data_transfer) (pure tt)

  -- The loop of `BufferTransferTask::Run`.
  unfoldable pub drain : ℕ → ReadAccess W → (List ℕ → M W (Unit {0})) → M W (Unit {0})
  unfolding write_name
  drain zero access write = run_out
  drain (suc fuel) access write =
      let again = drain fuel access write in
      access.is_running >>= λ running. elim running [
        | false ↦ pure tt
        | true ↦ access.read >>= λ bytes. write_name write bytes >>= λ _. again
      ]

  -- `BufferTransferTask::Run`.
  unfoldable pub run_buffer_transfer :
      ℕ → ReadAccess W → Option (List ℕ → M W (Unit {0})) → M W (Unit {0})
  run_buffer_transfer fuel access none = raise invalid_argument
  run_buffer_transfer fuel access (some write) = catch_runtime (drain fuel access write) access.stop

  -- The loop of `NetworkTask::Run`.
  unfoldable pub run_tasks : List (M W (Unit {0})) → M W (Unit {0})
  run_tasks [] = pure tt
  run_tasks (task ∷ tasks) = task >>= λ _. run_tasks tasks

  -- Every `std::exception` is caught and reported.
  absorb : Outcome (Unit {0}) × W → Outcome (Unit {0}) × W
  absorb (thrown e, w) = (done tt, w)
  absorb (o, w) = (o, w)

  -- `NetworkTask::Run`; `run_io` is `io_context::run`.
  unfoldable pub run_network_task : List (M W (Unit {0})) → M W (Unit {0}) → M W (Unit {0})
  unfolding run_tasks absorb
  run_network_task tasks run_io w = absorb ((run_tasks tasks >>= λ _. run_io) w)
