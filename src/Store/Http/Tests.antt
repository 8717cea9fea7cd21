-- ===== src/Store/Http/Tests.antt =====
-- src/store/HttpStore.cpp: one stream, three requests, and a busy server.
use scrollviewer.Base.{◌+◌, ◌≡◌, ◌⊎◌, refl, none, List, [], ◌∷◌}
use scrollviewer.Data.Pipeline.{StoreResult, contains}
use scrollviewer.Store.Http.{
  HttpConfig, Transfer, HttpStore, Event, init, run, step, submit, admit_loop, retry_loop,
  drop_loop, start_transfer, has_room, is_stopped, answer, append_received, take_transfer,
  finish_transfer, should_retry, final_result, reap, shutdown,
}
use scrollviewer.Store.Http.Balance.{waiting, called, submitted, in_requests, run-balance}
use scrollviewer.Store.Http.Shutdown.{shutdown-called}
use scrollviewer.Store.Http.Caps.{Capped, run-Capped}
use scrollviewer.Store.Http.Finish.{Retried, Ended, finish_transfer_cases}

abbrev config : HttpConfig
config = record { max_concurrent_streams = 1; max_retries = 3 }

-- The first request is answered, the second one meets a 503, and the third one is cancelled.
abbrev events : List Event
events =
    Event.submits "a" none 10 1
    ∷ Event.submits "b" none 11 2
    ∷ Event.submits "c" none 12 3
    ∷ Event.admits
    ∷ Event.delivers 0 (7 ∷ 8 ∷ [])
    ∷ Event.reports 0 0 200
    ∷ Event.stops 12
    ∷ Event.admits
    ∷ Event.reports 1 0 503
    ∷ []

abbrev after : HttpStore
after = run (init config) events

program : Unit {0}
unfolding init run step submit admit_loop retry_loop drop_loop start_transfer has_room is_stopped
    answer append_received take_transfer finish_transfer should_retry final_result reap contains
program = tt

first_answered : after.calls ≡ record { callback = 1; result = StoreResult.bytes (7 ∷ 8 ∷ []) } ∷ []
unfolding program
first_answered = refl

second_waits : in_requests 2 after.retry_queue ≡ 1
unfolding program
second_waits = refl

run-balance_example : waiting 2 after + called 2 after ≡ submitted 2 events
run-balance_example = run-balance config 2 events

shutdown-called_example :
    (called 2 (shutdown after) + in_requests 2 after.retry_queue ≡ submitted 2 events)
    × (waiting 2 (shutdown after) ≡ in_requests 2 after.retry_queue)
shutdown-called_example = shutdown-called config 2 events

run-Capped_example : Capped config after
run-Capped_example = run-Capped config events

abbrev transfer : Transfer
transfer = record {
  handle = 1;
  request = record { key = "b"; range = none; stop = 11; callback = 2; attempt = 0 };
  received = [];
}

finish_transfer_cases_example : Retried transfer 0 503 after ⊎ Ended transfer 0 503 after
finish_transfer_cases_example = finish_transfer_cases transfer 0 503 after
