-- ===== src/Engine/Tests.antt =====
-- Runs of gateway/app/cbm.py with an engine that falls silent during its first call, and one that
-- answers.
use repo_mcp.Prelude.{
  some, insert, ℕ, String, ◌≡◌, refl, false, List, [], ◌∷◌, arith, if◌then◌else◌, ◌==◌, ℕ_eq,
  String_eq, lookup,
}
use repo_mcp.Prelude.Value.{get, truthy, str, num, obj, arr, nil, cons, Fields, end, field}
use repo_mcp.Prelude.Result.{ok, err}
use repo_mcp.Engine.Undisturbed.{
  Traffic, squad_call, reaped, after_traffic, after_traffic-pool_call,
}
use repo_mcp.Engine.{
  Session, started, request, await_reply, close, Arrival, noise, line, timed_out, ToolResult,
  new_session, Spawn, ensure_started, call_tool,
}
use repo_mcp.Engine.Pool.{session_for, pool_call, Sessions}
use repo_mcp.Engine.Replies.{
  after_event, OwnReply, Event, used, after_events, call_tool-after_events,
}
use repo_mcp.Engine.Recovers.{Healthy}
use repo_mcp.Engine.Closed.{call_tool-recovers}

abbrev answer : ℕ → Fields
answer id =
    field "id" (num id)
      (field "result" (obj (field "content" (arr (cons (str "graph") nil)) end)) end)

abbrev notice : Fields
notice = field "method" (str "notifications/progress") end

abbrev good : List Arrival
good =
    noise
    ∷ line (obj (answer 1))
    ∷ line (obj notice)
    ∷ line (obj (answer 2))
    ∷ noise
    ∷ line (obj (answer 3))
    ∷ []

abbrev silent : List Arrival
silent = line (obj (answer 1)) ∷ line (obj notice) ∷ []

abbrev spawning : Spawn
spawning n = if n == 0 then some silent else some good

abbrev graph : ToolResult
graph = record { content = arr (cons (str "graph") nil); is_error = false }

abbrev events : List Event
events = used 1 "search_graph" end ∷ used 2 "search_graph" end ∷ []

after_silence : (call_tool spawning 1 "search_graph" end (new_session 0)).0 ≡ err timed_out
unfolding call_tool ensure_started started request await_reply get
after_silence = refl

third_call :
    (call_tool spawning 3 "trace_path" end (after_events spawning events (new_session 0))).0
    ≡ ok graph
unfolding call_tool ensure_started started after_events after_event request await_reply get close
    truthy
third_call = refl

call_tool-after_events_example :
    let s = after_events spawning events (new_session 0) in
    OwnReply
      (ensure_started spawning s).1.process
      "trace_path"
      end
      graph
      (call_tool spawning 3 "trace_path" end s).1
call_tool-after_events_example =
    call_tool-after_events spawning events 0 3 "trace_path" end graph third_call

good-Healthy : Healthy good graph
unfolding get truthy
good-Healthy = record {
  before = noise ∷ [];
  greeting = answer 1;
  between = line (obj notice) ∷ [];
  reply = answer 2;
  rest = noise ∷ line (obj (answer 3)) ∷ [];
  form = refl;
  passed = (tt, tt);
  greets = record { named = refl; plain = refl };
  skipped = (refl, tt);
  replies = record { named = refl; plain = refl };
  result = refl;
}

second_start :
    spawning (call_tool spawning 1 "search_graph" end (new_session 0)).1.starts ≡ some good
unfolding call_tool ensure_started started request await_reply get close
second_start = refl

call_tool-recovers_example :
    (call_tool spawning 5 "trace_path" end
      (call_tool spawning 1 "search_graph" end (new_session 0)).1).0
    ≡ ok graph
call_tool-recovers_example =
    call_tool-recovers spawning 1 5 "search_graph" "trace_path" end end (new_session 0) timed_out
      good graph after_silence refl second_start good-Healthy

abbrev squads : String → Spawn
squads tenant n = some good

abbrev pool : Sessions
pool = (pool_call squads 1 "core" "search_graph" end []).1

pay_call : (pool_call squads 2 "pay" "search_graph" end pool).0 ≡ ok graph
unfolding pool_call call_tool ensure_started started session_for lookup insert request await_reply
    get truthy
pay_call = refl

abbrev traffic : List Traffic
traffic =
    squad_call "core" 3 "search_graph" end
    ∷ reaped 902
    ∷ squad_call "core" 950 "search_graph" end
    ∷ []

after_traffic-pool_call_example :
    let pool' = (pool_call squads 2 "pay" "search_graph" end pool).1 in
    (s : Session) × (lookup "pay" pool' ≡ some s)
    × (lookup "pay" (after_traffic squads 900 traffic pool') ≡ some s)
after_traffic-pool_call_example =
    after_traffic-pool_call squads 900 2 "pay" "search_graph" end pool graph traffic pay_call
      ((λ e. cc), (omega arith, ((λ e. cc), tt)))
