-- ===== src/Server/Session.antt =====
-- pkg/mcp_server/session.go: the sessions behind the lock, and the calls in flight. A session is a
-- number in the heap, since a project that was evicted and opened again has another one. Whether the
-- store opens and whether the graph can be refreshed are given to each call.
pub mod Safe
pub mod Steps
use graph_context.Base.{
  ℕ, zero, suc, ◌+◌, ◌-◌, List, [], ◌∷◌, Str, str_eq, nat_eq, nat_beq, ltb, leb, Bool, true, false,
  ◌||◌, Option, none, some, lookup, insert, delete, map, if◌then◌else◌,
}

pub record Session : Type 0 where
  pub path : Str
  pub last_used : ℕ
  pub in_use : ℕ
  pub closed : Bool

-- `calls` holds the session of each call between its acquire and its release.
pub record Server : Type 0 where
  pub heap : List (ℕ × Session)
  pub next : ℕ
  pub sessions : List (Str × ℕ)
  pub calls : List ℕ

abbrev pub new_server : Server
new_server = record { heap = []; next = 0; sessions = []; calls = [] }

-- touch, and the call that holds the session.
unfoldable pub touch : Bool → ℕ → ℕ → Session → Server → Server
touch true now id s v = record v {
  heap = insert id (record s { last_used = now; in_use = s.in_use + 1 }) v.heap;
  calls = id ∷ v.calls;
}
touch false now id s v = record v { heap = insert id (record s { last_used = now }) v.heap }

abbrev pub new_session : Str → Session
new_session path = record { path = path; last_used = 0; in_use = 0; closed = false }

unfoldable pub add_session : Str → Server → Server
add_session path v = record v {
  heap = insert v.next (new_session path) v.heap;
  next = suc v.next;
  sessions = insert path v.next v.sessions;
}

-- The rest of openSession once the session is there.
unfoldable pub refresh_graph : Bool → Bool → ℕ → ℕ → Option Session → Server → Server
unfolding touch
refresh_graph fresh hold now id none v = v
refresh_graph fresh hold now id (some s) v = if fresh then touch hold now id s v else v

abbrev pub found_or_new : Bool → Bool → Bool → ℕ → Str → Option ℕ → Server → Server
found_or_new opened fresh hold now path (some id) v =
    refresh_graph fresh hold now id (lookup id v.heap) v
found_or_new opened fresh hold now path none v =
    if opened
    then refresh_graph fresh hold now v.next (some (new_session path)) (add_session path v)
    else v

-- openSession
unfoldable pub open_session : Bool → Bool → Bool → ℕ → Str → Server → Server
unfolding refresh_graph add_session
open_session opened fresh hold now path v =
    found_or_new opened fresh hold now path (lookup path v.sessions) v

abbrev pub drop_call : ℕ → List ℕ → List ℕ
drop_call id [] = []
drop_call id (i ∷ is) = let rest = drop_call id is in if nat_beq i id then is else i ∷ rest

abbrev pub release_session : ℕ → ℕ → Option Session → Server → Server
release_session now id none v = v
release_session now id (some s) v = record v {
  heap = insert id (record s { last_used = now; in_use = s.in_use - 1 }) v.heap;
  calls = drop_call id v.calls;
}

-- The function that acquireSession returns.
unfoldable pub release : ℕ → ℕ → Server → Server
release now id v = release_session now id (lookup id v.heap) v

unfoldable pub close_session : Str → ℕ → Session → Server → Server
close_session path id s v = record v {
  heap = insert id (record s { closed = true }) v.heap;
  sessions = delete path v.sessions;
}

-- sess.inUse > 0 || now.Sub(sess.lastUsed) <= ttl
abbrev pub stays_open : ℕ → ℕ → Session → Bool
stays_open now ttl s = ltb 0 s.in_use || leb now (s.last_used + ttl)

abbrev pub evict_session : ℕ → ℕ → Str → ℕ → Option Session → Server → Server
evict_session now ttl path id none v = v
evict_session now ttl path id (some s) v =
    if stays_open now ttl s then v else close_session path id s v

abbrev pub evict_found : ℕ → ℕ → Str → Option ℕ → Server → Server
evict_found now ttl path none v = v
evict_found now ttl path (some id) v = evict_session now ttl path id (lookup id v.heap) v

-- The body of the loop over the sessions.
unfoldable pub evict_path : ℕ → ℕ → Str → Server → Server
unfolding close_session
evict_path now ttl path v = evict_found now ttl path (lookup path v.sessions) v

unfoldable pub evict_paths : ℕ → ℕ → List Str → Server → Server
unfolding evict_path
evict_paths now ttl [] v = v
evict_paths now ttl (p ∷ ps) v = evict_paths now ttl ps (evict_path now ttl p v)

-- evictIdleSessions, less the number that it returns.
unfoldable pub evict_idle_sessions : ℕ → ℕ → Server → Server
unfolding evict_paths
evict_idle_sessions now ttl v = evict_paths now ttl (map (λ (p, _). p) v.sessions) v

-- The body of the loop of closeAllSessions, which does not ask whether a call holds the session.
unfoldable pub close_found : Str → ℕ → Option Session → Server → Server
unfolding close_session
close_found path id none v = record v { sessions = delete path v.sessions }
close_found path id (some s) v = close_session path id s v

abbrev pub close_path : Str → Option ℕ → Server → Server
close_path path none v = v
close_path path (some id) v = close_found path id (lookup id v.heap) v

unfoldable pub close_paths : List Str → Server → Server
unfolding close_found
close_paths [] v = v
close_paths (p ∷ ps) v = close_paths ps (close_path p (lookup p v.sessions) v)

-- closeAllSessions, when the server ends
unfoldable pub close_all_sessions : Server → Server
unfolding close_paths
close_all_sessions v = close_paths (map (λ (p, _). p) v.sessions) v
