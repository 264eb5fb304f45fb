-- ===== src/Web/Tests.antt =====
-- The theorems on packages/web-ui at concrete inputs.
use ccctl.Base.{◌≡◌, ◌⊎◌, refl, inr, String, List, [], ◌∷◌, none, some}
use ccctl.Base.Dict.{Dict, get, set}
use ccctl.Base.Texts.{trim}
use ccctl.Core.Json.{Json, Fields, str, arr, obj, nil, cons, field, end}
use ccctl.Core.Session.{default}
use ccctl.Server.Body.{ok}
use ccctl.Server.Launch.Handler.{handle_session_launch}
use ccctl.Core.Tests.Questions.{asked, asked-IsWellFormed}
use ccctl.Server.Commands.{parse_ui_command, answer_rejection}
use ccctl.Server.Worker.{WorkerChannelState}
use ccctl.Server.Tests.Channels.{start}
use ccctl.Web.Answer.{answer_from_selections, answer_command, answer_body}
use ccctl.Web.Answer.Sent.{answer_command-accepted}
use ccctl.Web.Fields.{trimmed_value}
use ccctl.Web.Launch.{launch_request}
use ccctl.Web.Launch.Accepted.{unless_blank, launch_request-parses}

launch_request-parses_example :
    ((trimmed_value (some (str " /work ")) ≡ "")
      × (launch_request (some (str " /work ")) none (some (str "go")) ≡ none))
    ⊎ ((body : Json) × (launch_request (some (str " /work ")) none (some (str "go")) ≡ some body)
        × (handle_session_launch "POST" (ok body)
            ≡ inr (record {
              cwd = trimmed_value (some (str " /work "));
              permission_mode = default;
              project = unless_blank (trimmed_value none);
              initial_prompt = unless_blank (trimmed_value (some (str "go")));
              settings_path = none;
            })))
launch_request-parses_example = launch_request-parses (some (str " /work ")) none (some (str "go"))

abbrev tapped : Json
tapped = obj (field "q0" (arr (cons (str "blue") nil)) end)

abbrev asking : WorkerChannelState
asking = record start {
  hub = record start.hub { requires_action_enrichments = ("s1", asked) ∷ [] };
}

abbrev answers : Dict (List String)
answers = ("q0", "blue" ∷ []) ∷ []

outstanding : get "s1" asking.hub.requires_action_enrichments ≡ some asked
unfolding get
outstanding = refl

made : answer_from_selections asked tapped ≡ some answers
unfolding answer_from_selections get set
made = refl

sent : answer_command asked.sequence_num answers ≡ some (answer_body asked.sequence_num answers)
unfolding answer_command trim
sent = refl

answer_command-accepted_example :
    (payload : Fields) × (parse_ui_command (answer_body asked.sequence_num answers)
      ≡ some (record { subtype = "answer"; payload = some payload }))
    × (answer_rejection asking "s1" (some payload) ≡ none)
answer_command-accepted_example =
    answer_command-accepted asking "s1" asked tapped answers
      (answer_body asked.sequence_num answers) asked-IsWellFormed outstanding made sent
