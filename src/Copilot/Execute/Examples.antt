-- ===== src/Copilot/Execute/Examples.antt =====
-- An answer of Chat Completions that was cut short, for a client of Responses.
use cpa_github_copilot.Common.{
  ℕ, ◌≡◌, refl, Bool, true, false, ◌||◌, Option, none, some, List, [], ◌∷◌, Bytes, codes, ltb, leb,
}
use cpa_github_copilot.Common.Json.{string, array, object, nil, cons, Fields, end, field}
use cpa_github_copilot.Copilot.Terminal.{Terminal, completed, incomplete, chat, responses}
use cpa_github_copilot.Copilot.Execute.{
  Answered, Executed, responded, Codecs, root_terminal, source_non_stream_terminal_status,
  execute_answer,
}
use cpa_github_copilot.Copilot.Execute.Terminated.{IsAuthorized, execute_answer-IsAuthorized}

-- A body that ended for its length, which is also an object of Responses.
cut_short : Fields
cut_short =
    field (codes "choices")
      (array (cons (object (field (codes "finish_reason") (string (codes "length")) end)) nil))
      (field (codes "object") (string (codes "response")) end)

codecs : Codecs
unfolding cut_short
codecs = record {
  unmarshal = λ s. some cut_short;
  type_of = λ s. none;
  has_unique_names = λ s. true;
  normalize_grok = λ s. s;
  has_converter = λ from to. true;
  convert = λ from to s. s;
  marshal = λ j. some (codes "{}");
}

answered : Answered
answered = record {
  http_status = 200;
  body = codes "{1}";
  upstream_is_responses = false;
  translator = chat;
  output = responses;
}

completed_response :
    root_terminal (
      field
        (codes "object")
        (string (codes "response"))
        (field (codes "status") (string (codes "completed")) end))
    ≡ some completed
unfolding root_terminal cpa_github_copilot.Copilot.Payload.has_field
    cpa_github_copilot.Common.bytes_eq cpa_github_copilot.Copilot.Terminal.string_value
    cpa_github_copilot.Copilot.Terminal.get cpa_github_copilot.Copilot.Terminal.is_null
completed_response = refl

is_rewritten : execute_answer codecs answered ≡ responded (codes "{}")
unfolding execute_answer codecs answered cut_short
    cpa_github_copilot.Copilot.Terminal.source_frame_terminal_status
    cpa_github_copilot.Copilot.Terminal.stream_frame_data
    cpa_github_copilot.Copilot.Terminal.sse_frame_data cpa_github_copilot.Copilot.Terminal.data_of
    cpa_github_copilot.Copilot.Terminal.replace_crlf cpa_github_copilot.Copilot.Terminal.chat_status
    cpa_github_copilot.Copilot.Terminal.has_error cpa_github_copilot.Copilot.Terminal.is_null
    cpa_github_copilot.Copilot.Terminal.get cpa_github_copilot.Copilot.Terminal.best_choice
    cpa_github_copilot.Copilot.Terminal.items_of cpa_github_copilot.Copilot.Terminal.better
    cpa_github_copilot.Copilot.Terminal.source_stop_reason_status
    cpa_github_copilot.Copilot.Terminal.source_terminal_priority
    cpa_github_copilot.Copilot.Terminal.string_value cpa_github_copilot.Copilot.Terminal.fields_of
    cpa_github_copilot.Copilot.Terminal.put
    cpa_github_copilot.Copilot.Execute.rewrite_responses_non_stream_incomplete
    cpa_github_copilot.Copilot.Execute.source_non_stream_terminal_status
    cpa_github_copilot.Copilot.Payload.has_field cpa_github_copilot.Common.bytes_eq
    cpa_github_copilot.Common.join cpa_github_copilot.Common.split
    cpa_github_copilot.Common.has_prefix cpa_github_copilot.Common.trim_space
    cpa_github_copilot.Common.to_lower
is_rewritten = refl

execute_answer-IsAuthorized_example :
    (ltb answered.http_status 200 || leb 300 answered.http_status ≡ false)
    × ((t : Terminal) × (reason : Bytes) × (source_non_stream_terminal_status codecs
            (codecs.normalize_grok answered.body)
            answered.translator
          ≡ some (t, reason))
        × IsAuthorized codecs answered (codecs.normalize_grok answered.body) t reason (codes "{}"))
unfolding answered
execute_answer-IsAuthorized_example =
    execute_answer-IsAuthorized codecs answered (codes "{}") refl refl refl is_rewritten
