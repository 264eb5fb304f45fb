-- ===== src/Server/Tests/Commands.antt =====
-- The theorems on the UI's commands, the work of an environment and the host of packages/server, at concrete inputs.
use native.Mathlib.Omega.{arith}
use ccctl.Base.{◌≡◌, refl, inl, false, List, [], ◌∷◌, ◌++◌, none, some}
use ccctl.Base.Dict.{get, set}
use ccctl.Core.Json.{num, nonneg, str, arr, obj, nil, cons, field, end}
use ccctl.Core.Detail.{displayable_text, displayable_detail, flatten, truncate}
use ccctl.Core.Session.{as_worker_status_sequence}
use ccctl.Core.Enrichment.{
  EnrichmentOption, EnrichmentQuestion, RequiresActionEnrichment, enrichment_text,
  is_enrichment_question_id, decimal,
}
use ccctl.Core.Answer.{
  AnswerEnvelope, accepted, answer_envelope_from_value, selections_from, labels_from,
  validate_answer_against_enrichment, check_answers, check_question, check_labels, by_id,
}
use ccctl.Server.Bridge.{WorkItem, session}
use ccctl.Server.Worker.{
  WorkerChannelState, push_client_event, write_client_event_frame, clear_idle_timer, disarm,
}
use ccctl.Server.Worker.Handlers.{json}
use ccctl.Server.Commands.{
  UiCommand, envelope_of, sequence_of, answer_rejection, relay_command, accept_command, run_command,
}
use ccctl.Server.Commands.Once.{run_command-once}
use ccctl.Core.Session.{plan}
use ccctl.Server.Bridge.{SessionCreateRequestBody}
use ccctl.Server.Work.Create.{Mint, BridgeState}
use ccctl.Server.Tests.{no_launches}
use ccctl.Server.Work.{WorkState}
use ccctl.Server.Work.Steps.{Step, polls, enqueues, times_out, IsServed, handed_all, run}
use ccctl.Server.Work.Fifo.{run-IsServed}
use ccctl.Server.Startup.{resolve_bind_host}
use ccctl.Server.Startup.Bind.{
  IsOwnHost, asked, resolve_bind_host-IsOwnHost, resolve_bind_host-quad,
}
use ccctl.Server.Tests.Channels.{settings, start}

abbrev red : EnrichmentOption
red = record { label = "red"; description = none }

abbrev blue : EnrichmentOption
blue = record { label = "blue"; description = none }

abbrev which : EnrichmentQuestion
which = record {
  question_id = "q0";
  prompt = "Which?";
  header = none;
  options = red ∷ blue ∷ [];
  multi_select = false;
}

abbrev question : RequiresActionEnrichment
question = record { sequence_num = 4; questions = which ∷ [] }

abbrev waiting_state : WorkerChannelState
waiting_state = record start {
  hub = record start.hub { requires_action_enrichments = ("s1", question) ∷ [] };
}

abbrev answer : UiCommand
answer = record {
  subtype = "answer";
  payload = some (
      field "sequence_num" (num (nonneg 4))
        (field "answers" (obj (field "q0" (arr (cons (str "red") nil)) end)) end));
}

told :
    run_command settings waiting_state "s1" answer
    ≡ (json (obj (field "id" (str "u") end)), (run_command settings waiting_state "s1" answer).1)
unfolding run_command answer_rejection accept_command relay_command get set
    answer_envelope_from_value selections_from labels_from enrichment_text is_enrichment_question_id
    validate_answer_against_enrichment check_answers check_question check_labels by_id
    as_worker_status_sequence push_client_event write_client_event_frame clear_idle_timer disarm
    displayable_text displayable_detail flatten truncate
told = refl

run_command-once_example :
    let t = (run_command settings waiting_state "s1" answer).1 in
    ((envelope : AnswerEnvelope) × (enrichment : RequiresActionEnrichment) × (envelope_of
          answer.payload
        ≡ some envelope)
      × (get "s1" waiting_state.hub.requires_action_enrichments ≡ some enrichment)
      × (validate_answer_against_enrichment enrichment envelope (sequence_of answer.payload)
          ≡ accepted))
    × ((run_command settings t "s1" answer).1 ≡ t)
run_command-once_example =
    run_command-once settings waiting_state "s1" answer answer (obj (field "id" (str "u") end))
      (run_command settings waiting_state "s1" answer).1 refl refl told

abbrev job : WorkItem
job = record { id = "w1"; secret = "s"; data_ = record { type = session; id = some "s1" } }

abbrev quiet_work : WorkState
quiet_work = record {
  environments = ("e1", record { max_sessions = 2; queue = []; waiters = [] }) ∷ [];
  answers = [];
  delivered = [];
  closed = [];
  next_response = 0;
}

quiet-IsServed : IsServed "e1" [] quiet_work
unfolding get
quiet-IsServed = record {
  environment = record { max_sessions = 2; queue = []; waiters = [] };
  present = refl;
  in_order = refl;
  awake = inl refl;
}

abbrev day : List Step
day =
    polls "GET" "e1"
    ∷ enqueues "e1" job
    ∷ enqueues "e1" job
    ∷ times_out "e1" 0
    ∷ polls "GET" "e1"
    ∷ []

run-IsServed_example : IsServed "e1" ([] ++ handed_all "e1" day) (run quiet_work day)
run-IsServed_example =
    run-IsServed day "e1" [] quiet_work (tt, (tt, (tt, (tt, (tt, tt))))) quiet-IsServed

bound_host : resolve_bind_host (some "127.0.0.2") ≡ some "127.0.0.2"
unfolding decimal
bound_host = resolve_bind_host-quad 0 0 2 (ground arith) (ground arith) (ground arith)

resolve_bind_host-IsOwnHost_example :
    ("127.0.0.2" ≡ asked (some "127.0.0.2")) × IsOwnHost "127.0.0.2"
resolve_bind_host-IsOwnHost_example =
    resolve_bind_host-IsOwnHost (some "127.0.0.2") "127.0.0.2" bound_host

abbrev mint : Mint
mint = record { uuid = λ n. "u"; token = λ n. "t"; encode = λ s. "secret" }

abbrev bridge : BridgeState
bridge = record {
  pending = no_launches;
  work = quiet_work;
  host = "127.0.0.1";
  port = 4000;
  drawn = 0;
}

abbrev asked_session : SessionCreateRequestBody
asked_session = record { model = "m"; cwd = "/a"; source = "cli"; permission_mode = plan }
