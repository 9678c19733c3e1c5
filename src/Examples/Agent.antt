-- ===== src/Examples/Agent.antt =====
-- A remote task, carried out by a model's answer, and the terminal around it.
use text.Mathlib.TextLemmas.{cons≢nil}
use nexus_ai_gateway.Prelude.{
  String, ◌^◌, ◌≡◌, ◌↔◌, refl, subst, true, Option, none, some, List, [], ◌∷◌, ◌++◌, All, In, arith,
  lookup, to_lower, trim_space, strip_prefix, has_prefix, cut, first_chars,
}
use nexus_ai_gateway.Prelude.Int.{pos}
use nexus_ai_gateway.Domain.Errors.{plain, nil, ok}
use nexus_ai_gateway.Domain.Tasks.{RemoteTask}
use nexus_ai_gateway.Storage.Tasks.{
  find_task, list_pending, pending_by_time, is_pending_of, insert_by_time, first_rows,
}
use nexus_ai_gateway.Switchyard.Context.{found_file}
use nexus_ai_gateway.Switchyard.Safety.{policy_named, parse_policy}
use nexus_ai_gateway.Switchyard.Edits.{ProposedEdit}
use nexus_ai_gateway.Switchyard.Edits.Laws.{Forbids}
use nexus_ai_gateway.Switchyard.Parsing.{
  span_line, path_line, match_edit, match_write, find_all, parse_proposed_edits,
}
use nexus_ai_gateway.Switchyard.Parsing.Blocks.{Blocks}
use nexus_ai_gateway.Switchyard.Parsing.Found.{IsEdit, IsWrite, parse_proposed_edits-Blocks}
use nexus_ai_gateway.Switchyard.Session.{
  get_pricing, model_pricing_table, priced, new_session_stats, record_call,
}
use nexus_ai_gateway.Switchyard.Session.Economics.{recorded, start, next, IsSound, Reach-IsSound}
use nexus_ai_gateway.Switchyard.Calls.{replied}
use nexus_ai_gateway.Switchyard.Daemon.{
  RemoteTaskResponse, Gateway, received, read_pending, policy_or_approve, Worker,
  poll_and_execute_single_task,
}
use nexus_ai_gateway.Switchyard.Daemon.Laws.{task_policy, poll_and_execute_single_task-keeps}
use nexus_ai_gateway.Switchyard.Daemon.Served.{sent_task, served}
use nexus_ai_gateway.Switchyard.Daemon.Relay.{work, closed_task, poll-closed_task}
use nexus_ai_gateway.Switchyard.WebLogin.{
  CallbackRequest, saved, torn, delivered, CallbackPayload, Event, called, start_web_auth_flow,
  base_url_of,
}
use nexus_ai_gateway.Switchyard.WebLogin.Laws.{IsEarned, start_web_auth_flow-IsEarned}
use nexus_ai_gateway.Switchyard.Completer.{
  Entry, policies, trim_blanks, split_blanks, options_of, last_of, complete,
}
use nexus_ai_gateway.Switchyard.Completer.Laws.{words, offered, complete-In_iff}
use nexus_ai_gateway.Examples.Edits.{disk, git, secrets-protected}

-- A text that quotes a fence in the file that it proposes.
abbrev response : String
response = "Done.\n```write:README.md\nRun:\n```sh\nmake\n```\n```\n"

-- The content ends at the fence that it quotes.
truncated :
    parse_proposed_edits response
    ≡ some (
        record { file_path = "README.md"; old_text = ""; new_text = "Run:\n"; action = "write" }
        ∷ [])
unfolding parse_proposed_edits find_all match_edit match_write path_line span_line cut strip_prefix
    trim_space
truncated = refl

parse_proposed_edits-Blocks_example :
    (edits : List ProposedEdit) × (writes : List ProposedEdit) × (parse_proposed_edits response
      ≡ some (edits ++ writes))
    × Blocks IsEdit edits response
    × Blocks IsWrite writes response
parse_proposed_edits-Blocks_example = parse_proposed_edits-Blocks response

Reach-IsSound_example :
    IsSound (record_call "gpt-4o" 100 20 (record_call "auto" 10 5 new_session_stats))
Reach-IsSound_example =
    Reach-IsSound (next (next start (recorded "auto" 10 5 _)) (recorded "gpt-4o" 100 20 _))

-- A pinned model is priced as one that is not known, below its own price.
pinned : (get_pricing "anthropic:claude-3-5-sonnet-20241022").input ≡ 2500
unfolding get_pricing has_prefix strip_prefix lookup model_pricing_table priced
pinned = refl

abbrev worker : Worker
worker = record {
  credentials = none;
  env = [];
  transport = λ call. replied 200 "" "" (
      ok (record {
        contents = response ∷ [];
        model = "gpt-4o";
        prompt_tokens = 10;
        completion_tokens = 20;
      }));
  stat = λ path. found_file 3 (ok ("go" ∷ []));
  disk = disk;
  git = git;
}

abbrev task : RemoteTask
task = record {
  id = "task_1";
  project_id = "p1";
  prompt = "document the build";
  preset = "auto";
  policy = "safe-auto";
  budget = 0;
  status = "pending";
  result_summary = "";
  diff = "";
  claimed_by = "";
  created_at = 1;
  updated_at = 1;
}

abbrev gateway : Gateway
gateway = served "r1" 5 9

listed : list_pending nil "p1" (task ∷ []) ≡ ok (task ∷ [])
unfolding list_pending pending_by_time is_pending_of insert_by_time first_rows
listed = refl

stands : find_task "task_1" (task ∷ []) ≡ some task
unfolding find_task
stands = refl

poll-closed_task_example :
    let polled = poll_and_execute_single_task gateway worker "p1" "w1" [] [] (task ∷ []) in
    (polled.executed ≡ true)
    × (polled.error ≡ nil)
    × (polled.files ≡ (work worker "r1" "p1" "w1" 5 9 task [] []).1)
    × (find_task "task_1" polled.gateway
        ≡ some (closed_task 5 9 "w1" (work worker "r1" "p1" "w1" 5 9 task [] []).0 task))
poll-closed_task_example =
    poll-closed_task worker "r1" "p1" "w1" 5 9 task [] (task ∷ []) [] [] cons≢nil cons≢nil listed
      stands refl

-- A gateway that lists one task and agrees to all.
abbrev agreeing : Gateway
agreeing = record {
  State = Unit;
  pending = λ project_id s. received 200 (ok (sent_task task ∷ []));
  claim = λ id worker_id s. (received 200 (ok tt), s);
  complete = λ id summary diff failed s. (received 200 (ok tt), s);
}

ok-inj : {A : Type 0} {a b : A} → ok a ≡ ok b → a ≡ b
ok-inj h = cc

guarded :
    (tasks : List RemoteTaskResponse)
    → read_pending (agreeing.pending "p1" tt) ≡ ok tasks
    → All (λ t. Forbids (task_policy worker ".env.local" secrets-protected agreeing t) []) tasks
unfolding read_pending sent_task parse_policy policy_named policy_or_approve to_lower trim_space
guarded tasks h =
    subst
      (λ ts.
        All (λ t. Forbids (task_policy worker ".env.local" secrets-protected agreeing t) []) ts)
      (ok-inj h) (tt, tt)

poll_and_execute_single_task-keeps_example :
    lookup ".env.local"
      (poll_and_execute_single_task agreeing worker "p1" "w1" []
        ((".env.local", "KEY=1") ∷ [])
        tt).files
    ≡ lookup ".env.local" ((".env.local", "KEY=1") ∷ [])
poll_and_execute_single_task-keeps_example =
    poll_and_execute_single_task-keeps worker ".env.local" secrets-protected agreeing "p1" "w1" []
      ((".env.local", "KEY=1") ∷ []) tt guarded

abbrev empty_payload : CallbackPayload
empty_payload = record { key = ""; project = ""; state = "" }

abbrev bearing : CallbackRequest
bearing = record {
  method = "GET";
  body = none;
  query = record { key = "ngk_live_a"; project = "p1"; state = "00ff" };
}

-- A request without the nonce, one with it, whose result is taken, and one whose save fails late.
abbrev events : List Event
events =
    called saved (record { method = "GET"; body = none; query = empty_payload })
    ∷ called saved bearing
    ∷ delivered 0
    ∷ called (torn (plain "no space left on device") none) bearing
    ∷ []

start_web_auth_flow-IsEarned_example :
    IsEarned "00ff"
      (base_url_of "")
      events
      none
      (start_web_auth_flow (λ port. true) (some "00ff") "" none events)
start_web_auth_flow-IsEarned_example =
    start_web_auth_flow-IsEarned (λ port. true) "00ff" "" none events

abbrev no_entries : String → Option (List Entry)
no_entries dir = none

slash : has_prefix (trim_blanks (first_chars 10 "/policy sa")) "/" ≡ true
unfolding has_prefix strip_prefix trim_blanks first_chars
slash = refl

asked : offered (words no_entries "/policy sa" 10) ≡ some (policies, "sa")
unfolding options_of last_of split_blanks trim_blanks first_chars
asked = refl

complete-In_iff_example :
    In "fe-auto" (complete no_entries "/policy sa" (pos 10)).0 ↔ In ("sa" ^ "fe-auto") policies
complete-In_iff_example =
    complete-In_iff no_entries "/policy sa" 10 policies "sa" "fe-auto" (omega arith) slash asked
