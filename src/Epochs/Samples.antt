-- ===== src/Epochs/Samples.antt =====
-- src/pump_research/epochs.py: two epochs, one run and invalidated, one running.
use pump_research.Prelude.{ℕ, ◌≡◌, refl, true, false, none, some, [], ◌∷◌, ok, err}
use pump_research.Epochs.{
  planned, running, invalid, same_status, is_terminal, declared_before_collection,
  first_run_started, closing, CollectionEpochCurrent, EpochTables, EpochStartResult, aware, naive,
  another_running, close_status, naive_timestamp, normalize_now, epoch_numbered, current_of,
  epoch_id_taken, same_event, event_taken, insert_epoch, insert_event, insert_current,
  update_current, another_is_running, has_active_run, status_of, locked_epoch,
}
use pump_research.Prelude.Sorting.{insert_by, sort_by}
use pump_research.Epochs.Operations.{
  Declaration, name_or_number, declared_epoch, declared_current, event_of, insert_declared,
  create_epoch, started, start_planned, start_locked, start_epoch_with_result, invalid_reason_of,
  closed, close_running, close_locked, close_epoch, joined, list_epochs, first_status,
  get_epoch_status,
}
use pump_research.Epochs.Steps.{no_tables, Reach, empty, later, created, started_step, closed_step}
use pump_research.Epochs.Exclusion.{Reach-IsAlone, Step-terminal_kept}
use pump_research.Epochs.Readers.{
  create_epoch-get, close_epoch-get, start_epoch_with_result_repeated,
}

abbrev epoch_one : Declaration
epoch_one = record {
  epoch_number = 1;
  purpose = 112 ∷ [];
  name = none;
  epoch_id = 71;
  event_id = 501;
  configuration_sha256 = 9;
  code_revision = none;
}

abbrev epoch_two : Declaration
epoch_two = record epoch_one { epoch_number = 2; epoch_id = 72; event_id = 502 }

abbrev current_one : CollectionEpochCurrent
current_one = record {
  collection_epoch_id = 71;
  status = planned;
  data_valid = true;
  invalid_reason = none;
  started_at = none;
  ended_at = none;
  latest_event_id = 501;
  updated_at = 100;
}

abbrev current_two : CollectionEpochCurrent
current_two = record current_one {
  collection_epoch_id = 72;
  latest_event_id = 502;
  updated_at = 120;
}

abbrev with_one : EpochTables
unfolding declared_epoch declared_current event_of name_or_number
with_one = record {
  epochs = declared_epoch epoch_one 100 ∷ [];
  events = event_of 501 (declared_epoch epoch_one 100) planned 100 declared_before_collection ∷ [];
  currents = current_one ∷ [];
  runs = [];
}

abbrev with_two : EpochTables
unfolding declared_epoch declared_current event_of name_or_number
with_two = record {
  epochs = declared_epoch epoch_one 100 ∷ declared_epoch epoch_two 120 ∷ [];
  events =
      event_of 501 (declared_epoch epoch_one 100) planned 100 declared_before_collection
      ∷ event_of 502 (declared_epoch epoch_two 120) planned 120 declared_before_collection
      ∷ [];
  currents = current_one ∷ current_two ∷ [];
  runs = [];
}

create_one :
    create_epoch 100 epoch_one none no_tables
    ≡ ok (status_of (declared_epoch epoch_one 100) current_one, with_one)
unfolding create_epoch insert_declared normalize_now epoch_numbered current_of epoch_id_taken
    same_event event_taken insert_epoch insert_event insert_current update_current
    another_is_running has_active_run status_of locked_epoch name_or_number declared_epoch
    declared_current event_of started start_planned start_locked start_epoch_with_result
    invalid_reason_of closed close_running close_locked close_epoch same_status is_terminal
create_one = refl

create_two :
    create_epoch 0 epoch_two (some (aware 120)) with_one
    ≡ ok (status_of (declared_epoch epoch_two 120) current_two, with_two)
unfolding create_epoch insert_declared normalize_now epoch_numbered current_of epoch_id_taken
    same_event event_taken insert_epoch insert_event insert_current update_current
    another_is_running has_active_run status_of locked_epoch name_or_number declared_epoch
    declared_current event_of started start_planned start_locked start_epoch_with_result
    invalid_reason_of closed close_running close_locked close_epoch same_status is_terminal
create_two = refl

naive_now : create_epoch 0 epoch_two (some (naive 120)) with_one ≡ err naive_timestamp
unfolding create_epoch insert_declared normalize_now epoch_numbered current_of epoch_id_taken
    same_event event_taken insert_epoch insert_event insert_current update_current
    another_is_running has_active_run status_of locked_epoch name_or_number declared_epoch
    declared_current event_of started start_planned start_locked start_epoch_with_result
    invalid_reason_of closed close_running close_locked close_epoch same_status is_terminal
naive_now = refl

abbrev running_one : EpochTables
unfolding event_of declared_epoch name_or_number
running_one = record with_two {
  events =
      event_of 501 (declared_epoch epoch_one 100) planned 100 declared_before_collection
      ∷ event_of 502 (declared_epoch epoch_two 120) planned 120 declared_before_collection
      ∷ event_of 503 (declared_epoch epoch_one 100) running 200 first_run_started
      ∷ [];
  currents =
      record current_one {
        status = running;
        started_at = some 200;
        latest_event_id = 503;
        updated_at = 200;
      }
      ∷ current_two
      ∷ [];
}

abbrev started_one : EpochStartResult
unfolding declared_epoch name_or_number
started_one = record { epoch = declared_epoch epoch_one 100; started_now = true }

start_one : start_epoch_with_result 0 503 1 (aware 200) with_two ≡ ok (started_one, running_one)
unfolding create_epoch insert_declared normalize_now epoch_numbered current_of epoch_id_taken
    same_event event_taken insert_epoch insert_event insert_current update_current
    another_is_running has_active_run status_of locked_epoch name_or_number declared_epoch
    declared_current event_of started start_planned start_locked start_epoch_with_result
    invalid_reason_of closed close_running close_locked close_epoch same_status is_terminal
start_one = refl

start_two_refused : start_epoch_with_result 0 504 2 (aware 210) running_one ≡ err another_running
unfolding create_epoch insert_declared normalize_now epoch_numbered current_of epoch_id_taken
    same_event event_taken insert_epoch insert_event insert_current update_current
    another_is_running has_active_run status_of locked_epoch name_or_number declared_epoch
    declared_current event_of started start_planned start_locked start_epoch_with_result
    invalid_reason_of closed close_running close_locked close_epoch same_status is_terminal
start_two_refused = refl

close_as_running : close_epoch 0 504 1 running [] (some (aware 300)) running_one ≡ err close_status
unfolding create_epoch insert_declared normalize_now epoch_numbered current_of epoch_id_taken
    same_event event_taken insert_epoch insert_event insert_current update_current
    another_is_running has_active_run status_of locked_epoch name_or_number declared_epoch
    declared_current event_of started start_planned start_locked start_epoch_with_result
    invalid_reason_of closed close_running close_locked close_epoch same_status is_terminal
close_as_running = refl

abbrev row_after : CollectionEpochCurrent
row_after = record current_one {
  status = invalid;
  data_valid = false;
  invalid_reason = some (closing (98 ∷ []));
  started_at = some 200;
  ended_at = some 300;
  latest_event_id = 504;
  updated_at = 300;
}

abbrev closed_one : EpochTables
unfolding event_of declared_epoch name_or_number
closed_one = record running_one {
  events =
      event_of 501 (declared_epoch epoch_one 100) planned 100 declared_before_collection
      ∷ event_of 502 (declared_epoch epoch_two 120) planned 120 declared_before_collection
      ∷ event_of 503 (declared_epoch epoch_one 100) running 200 first_run_started
      ∷ event_of 504 (declared_epoch epoch_one 100) invalid 300 (closing (98 ∷ []))
      ∷ [];
  currents = row_after ∷ current_two ∷ [];
}

close_one :
    close_epoch 0 504 1 invalid (98 ∷ []) (some (aware 300)) running_one
    ≡ ok (status_of (declared_epoch epoch_one 100) row_after, closed_one)
unfolding create_epoch insert_declared normalize_now epoch_numbered current_of epoch_id_taken
    same_event event_taken insert_epoch insert_event insert_current update_current
    another_is_running has_active_run status_of locked_epoch name_or_number declared_epoch
    declared_current event_of started start_planned start_locked start_epoch_with_result
    invalid_reason_of closed close_running close_locked close_epoch same_status is_terminal
close_one = refl

listed :
    list_epochs closed_one
    ≡ status_of (declared_epoch epoch_one 100) row_after
      ∷ status_of (declared_epoch epoch_two 120) current_two
      ∷ []
unfolding list_epochs sort_by insert_by joined current_of status_of declared_epoch name_or_number
    closed_one with_two
listed = refl

latest :
    get_epoch_status none closed_one ≡ ok (status_of (declared_epoch epoch_two 120) current_two)
unfolding get_epoch_status first_status sort_by insert_by joined current_of status_of declared_epoch
    name_or_number closed_one with_two
latest = refl

Reach-two : Reach with_two
Reach-two =
    later (later empty (created 100 epoch_one none _ create_one))
      (created 0 epoch_two (some (aware 120)) _ create_two)

Reach-running : Reach running_one
Reach-running = later Reach-two (started_step 0 503 1 (aware 200) started_one start_one)

Reach-closed : Reach closed_one
Reach-closed =
    later Reach-running (closed_step 0 504 1 invalid (98 ∷ []) (some (aware 300)) _ close_one)

found_one : current_of 71 closed_one.currents ≡ some row_after
unfolding current_of closed_one
found_one = refl

found_running :
    current_of 71 running_one.currents
    ≡ some (record current_one {
      status = running;
      started_at = some 200;
      latest_event_id = 503;
      updated_at = 200;
    })
unfolding current_of running_one
found_running = refl

Reach-IsAlone_example : ◌≡◌ {A = ℕ} 71 71
Reach-IsAlone_example = Reach-IsAlone Reach-running 71 71 _ _ found_running found_running refl refl

terminal_row : is_terminal row_after.status ≡ true
unfolding is_terminal
terminal_row = refl

abbrev epoch_three : Declaration
epoch_three = record epoch_one { epoch_number = 3; epoch_id = 73; event_id = 505 }

abbrev with_three : EpochTables
unfolding event_of declared_epoch declared_current name_or_number
with_three = record closed_one {
  epochs =
      declared_epoch epoch_one 100
      ∷ declared_epoch epoch_two 120
      ∷ declared_epoch epoch_three 400
      ∷ [];
  events =
      event_of 501 (declared_epoch epoch_one 100) planned 100 declared_before_collection
      ∷ event_of 502 (declared_epoch epoch_two 120) planned 120 declared_before_collection
      ∷ event_of 503 (declared_epoch epoch_one 100) running 200 first_run_started
      ∷ event_of 504 (declared_epoch epoch_one 100) invalid 300 (closing (98 ∷ []))
      ∷ event_of 505 (declared_epoch epoch_three 400) planned 400 declared_before_collection
      ∷ [];
  currents = row_after ∷ current_two ∷ declared_current epoch_three 400 ∷ [];
}

create_three :
    create_epoch 400 epoch_three none closed_one
    ≡ ok (status_of (declared_epoch epoch_three 400) (declared_current epoch_three 400), with_three)
unfolding create_epoch insert_declared normalize_now epoch_numbered current_of epoch_id_taken
    same_event event_taken insert_epoch insert_event insert_current update_current
    another_is_running has_active_run status_of locked_epoch name_or_number declared_epoch
    declared_current event_of started start_planned start_locked start_epoch_with_result
    invalid_reason_of closed close_running close_locked close_epoch same_status is_terminal
create_three = refl

Step-terminal_kept_example : current_of 71 with_three.currents ≡ some row_after
Step-terminal_kept_example =
    Step-terminal_kept Reach-closed (created 400 epoch_three none _ create_three) 71 row_after
      found_one terminal_row

create_epoch-get_example :
    get_epoch_status (some 3) with_three
    ≡ ok (status_of (declared_epoch epoch_three 400) (declared_current epoch_three 400))
create_epoch-get_example = create_epoch-get Reach-closed 400 epoch_three none create_three

close_epoch-get_example :
    get_epoch_status (some 1) closed_one ≡ ok (status_of (declared_epoch epoch_one 100) row_after)
close_epoch-get_example =
    close_epoch-get Reach-running 0 504 1 invalid (98 ∷ []) (some (aware 300)) close_one

start_epoch_with_result_repeated_example :
    start_epoch_with_result 7 599 1 (aware 250) running_one
    ≡ ok (record { epoch = started_one.epoch; started_now = false }, running_one)
start_epoch_with_result_repeated_example =
    start_epoch_with_result_repeated 0 503 1 7 599 (aware 200) (aware 250) with_two start_one
