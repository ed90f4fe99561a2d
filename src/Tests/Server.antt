-- ===== src/Tests/Server.antt =====
-- pkg/mcp_server/session.go: one project, opened for a call.
use graph_context.Base.{◌≡◌, refl, [], ◌∷◌, bytes, true, false, map}
use graph_context.Server.Session.{
  Server, new_server, open_session, release, evict_idle_sessions, close_all_sessions,
}
use graph_context.Server.Session.Safe.{IsSafe}
use graph_context.Server.Session.Steps.{opening, evicting, start, next, Reach, Reach-IsSafe}

abbrev in_call : Server
unfolding open_session
in_call = open_session true true true 3 (bytes "/repo") new_server

-- The session is idle for long, but held by a call.
not_evicted : map (λ (p, _). p) (evict_idle_sessions 99 5 in_call).sessions ≡ bytes "/repo" ∷ []
unfolding evict_idle_sessions in_call
not_evicted = refl

-- When the call has ended it is evicted.
evicted : (evict_idle_sessions 99 5 (release 4 0 in_call)).sessions ≡ []
unfolding evict_idle_sessions release in_call
evicted = refl

abbrev before_end : Server
before_end = evict_idle_sessions 99 5 (open_session true true true 3 (bytes "/repo") new_server)

before_end-Reach : Reach false before_end
before_end-Reach =
    next (next start (opening true true true 3 (bytes "/repo") new_server))
      (evicting 99 5 (open_session true true true 3 (bytes "/repo") new_server))

Reach-IsSafe_example : IsSafe false before_end
Reach-IsSafe_example = Reach-IsSafe before_end-Reach

-- At the end of the server the session is closed, though a call holds it.
closed_under_call : map (λ (_, s). s.closed) (close_all_sessions in_call).heap ≡ true ∷ []
unfolding close_all_sessions in_call
closed_under_call = refl
