-- ===== src/Core/Tests.antt =====
-- Runs of the definitions of packages/core on concrete inputs, and the theorems at such inputs.
pub mod Questions
use native.Mathlib.Omega.{arith}
use mathlib.Core.List.{Mem, Memᴰ, Nodup-nil, Nodup-cons, not-mem-nil}
use ccctl.Base.{
  ℕ, ◌≤◌, ◌≡◌, ◌↔◌, refl, String, true, false, List, [], ◌∷◌, Option, none, some, str_eq,
  if◌then◌else◌, All,
}
use ccctl.Base.Dict.{get, set}
use ccctl.Base.Texts.{size, trim}
use ccctl.Core.Json.{Json, num, nonneg, str, arr, obj, nil, cons, end, field, as_object}
use ccctl.Core.Detail.{displayable_text, displayable_detail, flatten, truncate}
use ccctl.Core.Detail.Tidy.{Tidy}
use ccctl.Core.Detail.Stable.{displayable_text-Tidy}
use ccctl.Core.Frame.{
  ControlFrame, DecodeResult, push, drain, ok, decode_control_frame, split_line, push_all,
  new_decoder, is_control_frame_type, encode_control_frame,
}
use ccctl.Core.Frame.Stream.{push_all-concat, push-drain}
use ccctl.Core.Frame.RoundTrip.{Prints, decode_control_frame_iff, push_all-encode_all}
use ccctl.Core.Session.{
  registering, Session, plan, create_registering_session, awaits, requires_action,
  apply_worker_status, ready, as_worker_status_sequence,
}
use ccctl.Core.Session.Activity.{IsSettled, activity_after, activity-apply_worker_status}
use ccctl.Core.Session.Lifecycle.{
  Event, registered, status_put, heartbeat, stream_opened, stopped, run, Keeps, run-Keeps,
  run-IsSettled,
}
use ccctl.Core.Enrichment.{
  EnrichmentOption, EnrichmentQuestion, RequiresActionEnrichment,
  requires_action_enrichment_from_value, questions_from, options_from,
  enrichment_question_from_value, enrichment_option_from_value, enrichment_text,
  enrichment_question_id,
}
use ccctl.Core.Enrichment.Shape.{IsWellFormed, enrichment_from_value-IsWellFormed}
use ccctl.Core.Answer.{
  answer_envelope_from_value, accepted, rejected, unoffered_label, check_question,
  validate_answer_against_enrichment,
}
use ccctl.Core.Answer.Accepted.{Fits, validate_answer_iff}
use ccctl.Core.Answer.Offered.{choice, choice-accepted}

-- Displayed text.

shown : Unit {0}
unfolding displayable_text displayable_detail flatten truncate
shown = tt

abbrev noisy : String
noisy = "  Allow\n\tedit?  "

noisy_shown : displayable_text noisy 200 ≡ some "Allow edit?"
unfolding shown
noisy_shown = refl

noisy_cut : displayable_text noisy 7 ≡ some "Allow …"
unfolding shown
noisy_cut = refl

blank_not_shown : displayable_text " \n " 200 ≡ none
unfolding shown
blank_not_shown = refl

displayable_text-Tidy_example :
    Tidy true "Allow …" × (size "Allow …" ≤ 7) × (displayable_text "Allow …" 7 ≡ some "Allow …")
displayable_text-Tidy_example = displayable_text-Tidy noisy 7 "Allow …" (omega arith) noisy_cut

-- Control frames, over a parser that knows two texts.

abbrev ping_text : String
ping_text = "{\"type\":\"control_event\"}"

abbrev ping_value : Json
ping_value = obj (field "type" (str "control_event") end)

abbrev ping : ControlFrame
ping = ("type", str "control_event") ∷ []

abbrev sample_parse : String → Option Json
sample_parse s = if str_eq s ping_text then some ping_value else none

abbrev sample_print : ControlFrame → String
sample_print f = ping_text

decoded : Unit {0}
unfolding decode_control_frame is_control_frame_type get push_all encode_control_frame trim
decoded = tt

two_pings :
    push_all sample_parse new_decoder ("{\"type\":\"contr" ∷ "ol_event\"}\n\n{\"ty" ∷ [])
    ≡ (ok ping ∷ [], record { buffer = "{\"ty" })
unfolding decoded
two_pings = refl

push_all-concat_example :
    push_all sample_parse new_decoder ("{\"type\":\"contr" ∷ "ol_event\"}\n" ∷ [])
    ≡ push_all sample_parse new_decoder ("{\"type\":\"control_event\"}\n" ∷ [])
push_all-concat_example =
    push_all-concat sample_parse ("{\"type\":\"contr" ∷ "ol_event\"}\n" ∷ [])
      ("{\"type\":\"control_event\"}\n" ∷ []) refl

abbrev two_lines : String
two_lines = "{}\n{\"ty"

push-drain_example :
    let (results, after) = push sample_parse new_decoder two_lines in
    (split_line after.buffer ≡ none)
    × (◌≡◌ {A = List DecodeResult × String}
        (drain sample_parse 9 two_lines)
        (results, after.buffer))
push-drain_example = push-drain sample_parse new_decoder two_lines 9 (ground arith)

ping-Prints : Prints sample_parse sample_print ping
unfolding decoded split_line
ping-Prints = record {
  value = ping_value;
  kind = str "control_event";
  parses = refl;
  is_object = refl;
  has_type = refl;
  known_type = refl;
  one_line = refl;
  not_blank = λ e. cc;
}

nothing_left : split_line "{" ≡ none
unfolding split_line
nothing_left = refl

push_all-encode_all_example :
    push_all sample_parse new_decoder ("{\"type\":\"contr" ∷ "ol_event\"}\n{" ∷ [])
    ≡ (ok ping ∷ [], record { buffer = "{" })
push_all-encode_all_example =
    push_all-encode_all sample_parse sample_print (ping ∷ []) "{"
      ("{\"type\":\"contr" ∷ "ol_event\"}\n{" ∷ []) (ping-Prints, tt) nothing_left
      (unfold encode_control_frame in refl)

-- Sessions.

abbrev launched : Session
launched = record {
  id = "s1";
  status = ready;
  activity = awaits "Pick one.";
  auto_resolves_permissions = false;
  created_at = 5;
  last_activity_at = 5;
  last_heartbeat_at = 5;
}

launched-IsSettled : IsSettled launched.activity
unfolding shown
launched-IsSettled = refl

activity-apply_worker_status_example :
    (apply_worker_status launched requires_action none 9).activity
    ≡ activity_after requires_action none (awaits "Pick one.")
activity-apply_worker_status_example =
    activity-apply_worker_status launched requires_action none 9 launched-IsSettled

kept_detail : activity_after requires_action none (awaits "Pick one.") ≡ awaits "Pick one."
unfolding shown
kept_detail = refl

-- The placeholder of a launch.
abbrev placeholder : Session
placeholder = record launched { status = registering }

abbrev history : List Event
history =
    registered plan 6
    ∷ stream_opened
    ∷ status_put requires_action (some (str "Allow\nedit?")) 7
    ∷ heartbeat 8
    ∷ stopped
    ∷ []

run-Keeps_example : Keeps placeholder (run placeholder history)
run-Keeps_example = run-Keeps placeholder history (refl, (tt, (tt, (tt, (tt, tt)))))
