-- ===== src/Env.antt =====
-- db/Env.h and db/Env.cpp. The abstract classes are records of their operations, which act on a
-- state `W` of the world; an object's destructor is its `delete`. An out-parameter is part of the
-- result, and a pointer that may be null an option. `Name` is a file name, the list of its bytes.
pub mod Write
pub mod ReadAll
mod Tests
use releveldb.Base.{
  ℕ, zero, suc, List, [], ◌∷◌, ◌++◌, Option, none, some, Bool, true, false, not, ◌&&◌,
  if◌then◌else◌, codes,
}
use releveldb.Act.{Act, ◌>>=◌, ◌>>◌, pure, lift}
use releveldb.Slice.{Slice, empty}
use releveldb.Status.{Status, ok, ok_status, not_supported}

abbrev pub Name : Type 0
Name = List ℕ

pub record SequentialFile (W : Type 0) : Type 0 where
  pub read : ℕ → Act W (Status × Slice)
  pub skip : ℕ → Act W Status
  pub delete : Act W (Unit {0})

pub record RandomAccessFile (W : Type 0) : Type 0 where
  pub read : ℕ → ℕ → Act W (Status × Slice)
  pub delete : Act W (Unit {0})

pub record WritableFile (W : Type 0) : Type 0 where
  pub append : Slice → Act W Status
  pub close : Act W Status
  pub flush : Act W Status
  pub sync : Act W Status
  pub delete : Act W (Unit {0})

-- `Logv`, on the text that the format and its arguments stand for
pub record Logger (W : Type 0) : Type 0 where
  pub logv : List ℕ → Act W (Unit {0})
  pub delete : Act W (Unit {0})

-- a function pointer and its argument
pub record Work : Type 0 where
  pub function : ℕ
  pub arg : ℕ

-- class `Env`; `L` is the type of its file locks
pub record Env (W L : Type 0) : Type 0 where
  pub new_sequential_file : Name → Act W (Status × Option (SequentialFile W))
  pub new_random_access_file : Name → Act W (Status × Option (RandomAccessFile W))
  pub new_writable_file : Name → Act W (Status × Option (WritableFile W))
  pub new_appendable_file : Name → Act W (Status × Option (WritableFile W))
  pub file_exists : Name → Act W Bool
  pub get_children : Name → Act W (Status × List Name)
  pub delete_file : Name → Act W Status
  pub create_dir : Name → Act W Status
  pub delete_dir : Name → Act W Status
  pub get_file_size : Name → Act W (Status × ℕ)
  pub rename_file : Name → Name → Act W Status
  pub lock_file : Name → Act W (Status × Option L)
  pub unlock_file : L → Act W Status
  pub schedule : Work → Act W (Unit {0})
  pub start_thread : Work → Act W (Unit {0})
  pub get_test_directory : Act W (Status × Name)
  pub new_logger : Name → Act W (Status × Option (Logger W))
  pub now_micros : Act W ℕ
  pub sleep_for_microseconds : ℕ → Act W (Unit {0})

abbrev pub k_buffer_size : ℕ
k_buffer_size = 8192

module _ {W : Type 0} where
  -- `Env::NewAppendableFile`, for subclasses that have none of their own; `*result` is not set.
  pub no_appendable_file : Name → Act W Status
  no_appendable_file fname = lift (not_supported (codes "NewAppendableFile") fname)

  -- `Log`
  pub log : Option (Logger W) → List ℕ → Act W (Unit {0})
  log none text = pure tt
  log (some info_log) text = info_log.logv text

  -- what `DoWriteStringToFile` does with the open file
  unfoldable pub write_and_close : WritableFile W → Slice → Bool → Act W Status
  write_and_close file contents should_sync = do
    appended ← file.append contents
    synced ← if ok appended && should_sync then file.sync else pure appended
    closed ← if ok synced then file.close else pure synced
    file.delete
    pure closed

  -- The while loop of `ReadFileToString`.
  unfoldable pub read_loop : ℕ → SequentialFile W → List ℕ → Act W (Status × List ℕ)
  unfolding empty
  read_loop zero file text = lift none
  read_loop (suc fuel) file text = do
    (s, fragment) ← file.read k_buffer_size
    let more = read_loop fuel file (text ++ fragment)
    if not (ok s)
        then pure (s, text)
        else if empty fragment
        then pure (s, text ++ fragment)
        else more

module _ {W L : Type 0} where
  -- class `EnvWrapper`, which forwards each call
  pub env_wrapper : Env W L → Env W L
  env_wrapper target = record {
    new_sequential_file = λ f. target.new_sequential_file f;
    new_random_access_file = λ f. target.new_random_access_file f;
    new_writable_file = λ f. target.new_writable_file f;
    new_appendable_file = λ f. target.new_appendable_file f;
    file_exists = λ f. target.file_exists f;
    get_children = λ dir. target.get_children dir;
    delete_file = λ f. target.delete_file f;
    create_dir = λ d. target.create_dir d;
    delete_dir = λ d. target.delete_dir d;
    get_file_size = λ f. target.get_file_size f;
    rename_file = λ s t. target.rename_file s t;
    lock_file = λ f. target.lock_file f;
    unlock_file = λ l. target.unlock_file l;
    schedule = λ work. target.schedule work;
    start_thread = λ work. target.start_thread work;
    get_test_directory = target.get_test_directory;
    new_logger = λ fname. target.new_logger fname;
    now_micros = target.now_micros;
    sleep_for_microseconds = λ micros. target.sleep_for_microseconds micros;
  }

  unfoldable pub do_write_string_to_file : Env W L → Slice → Name → Bool → Act W Status
  unfolding write_and_close
  do_write_string_to_file env contents fname should_sync = do
    (s, file) ← env.new_writable_file fname
    if not (ok s) then pure s else (do
      opened ← lift file
      s' ← write_and_close opened contents should_sync
      if ok s' then pure s' else (do env.delete_file fname; pure s'))

  pub write_string_to_file : Env W L → Slice → Name → Act W Status
  unfolding do_write_string_to_file
  write_string_to_file env contents fname = do_write_string_to_file env contents fname false

  pub write_string_to_file_sync : Env W L → Slice → Name → Act W Status
  unfolding do_write_string_to_file
  write_string_to_file_sync env contents fname = do_write_string_to_file env contents fname true

  unfoldable pub read_file_to_string : ℕ → Env W L → Name → Act W (Status × List ℕ)
  unfolding read_loop
  read_file_to_string fuel env fname = do
    (s, file) ← env.new_sequential_file fname
    if not (ok s) then pure (s, []) else (do
      opened ← lift file
      (s', text) ← read_loop fuel opened []
      opened.delete
      pure (s', text))
