-- ===== src/Env/Tests.antt =====
-- Runs of the utilities of db/Env.cpp over small environments.
use releveldb.Base.{
  ℕ, ◌≡◌, ◌⊎◌, refl, List, [], ◌++◌, Option, none, some, true, false, length, take, drop, codes,
}
use releveldb.Act.{lift, pure}
use releveldb.Slice.{Slice}
use releveldb.Status.{Status, ok, ok_status}
use releveldb.Env.{Name, SequentialFile, WritableFile, Env, do_write_string_to_file}
use releveldb.Env.Write.{IsWriter, WritesTo, NotCreated, Deleted, do_write_string_to_file_lem}

-- The state is the one file, or what is left to read of it.
abbrev Disk : Type 0
Disk = Option (List ℕ)

abbrev plus : Disk → Slice → Disk
plus none new = none
plus (some old) new = some (old ++ new)

abbrev writer : WritableFile Disk
writer = record {
  append = λ new w. some (ok_status, plus w new);
  close = pure ok_status;
  flush = pure ok_status;
  sync = pure ok_status;
  delete = pure tt;
}

abbrev left : Disk → List ℕ
left none = []
left (some xs) = xs

abbrev reader : SequentialFile Disk
reader = record {
  read = λ n w. some ((ok_status, take n (left w)), some (drop n (left w)));
  skip = λ n w. some (ok_status, some (drop n (left w)));
  delete = pure tt;
}

abbrev env : Env Disk ℕ
env = record {
  new_sequential_file = λ f. pure (ok_status, some reader);
  new_random_access_file = λ f. lift none;
  new_writable_file = λ f w. some ((ok_status, some writer), some []);
  new_appendable_file = λ f. lift none;
  file_exists = λ f. pure true;
  get_children = λ f. lift none;
  delete_file = λ f w. some (ok_status, none);
  create_dir = λ d. lift none;
  delete_dir = λ d. lift none;
  get_file_size = λ f w. some ((ok_status, length (left w)), w);
  rename_file = λ s t. lift none;
  lock_file = λ f. lift none;
  unlock_file = λ l. lift none;
  schedule = λ work. pure tt;
  start_thread = λ work. pure tt;
  get_test_directory = lift none;
  new_logger = λ f. lift none;
  now_micros = pure 7;
  sleep_for_microseconds = λ n. pure tt;
}

abbrev content : Disk → Name → Option (List ℕ)
content w name = w

good_status : ok ok_status ≡ true
unfolding ok ok_status
good_status = refl

abbrev IsThere : Disk → Type 0
IsThere w = Unit

writer-IsWriter : (name : Name) → IsWriter content IsThere IsThere IsThere name writer
writer-IsWriter name = record {
  appends = λ old new w q e. (ok_status, plus w new, refl, q, λ h. rw e refl);
  syncs = λ c w q e. (ok_status, w, refl, q, λ h. e);
  closes = λ c w q e. (ok_status, w, refl, q, λ h. (q, e));
  lives = λ w q. q;
  deletes = λ w q. (w, refl, λ h. refl);
}

env-WritesTo : (name : Name) → WritesTo content env name
env-WritesTo name = record {
  creates = λ w. (
    ok_status,
    some writer,
    some [],
    refl,
    λ h. (writer, IsThere, IsThere, IsThere, refl, refl, tt, writer-IsWriter name),
  );
  removes = λ w. (ok_status, none, refl, λ h. refl);
}

do_write_string_to_file_lem_example :
    (s : Status) × (w' : Disk) × (do_write_string_to_file env (codes "abc") (codes "f") true none
      ≡ some (s, w'))
    × (ok s ≡ true → content w' (codes "f") ≡ some (codes "abc"))
    × (ok s ≡ false
        → NotCreated content env (codes "f") (env-WritesTo (codes "f")) none s w'
          ⊎ Deleted content env (codes "f") (env-WritesTo (codes "f")) w')
do_write_string_to_file_lem_example =
    do_write_string_to_file_lem content env (codes "f") (env-WritesTo (codes "f")) (codes "abc")
      true none
