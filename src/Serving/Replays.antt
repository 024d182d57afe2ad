-- ===== src/Serving/Replays.antt =====
-- The cache of responses over many requests (src/common/interceptors/cache.interceptor.ts, behind the
-- middleware and the guard, in the order of src/app.create.ts).
use multitenancy.Prelude.{String, Bool, List, [], ◌∷◌, some, ◌≡◌, refl}
use multitenancy.Json.{Json, Fields}
use multitenancy.Cache
use multitenancy.World.{World, Result, ok, err, Action}
use multitenancy.Platform.{Platform}
use multitenancy.Interceptors.{Server, Call, Handler}
use multitenancy.Interceptors.Replay.{handle-remembers, handle-replayed, handle-keeps}
use multitenancy.Requests.{Request}
use multitenancy.Bodies.{Property, Pipe}
use multitenancy.Serving.{Route, Incoming, on_world, admit, checked, entered, serve}

-- one request, with the handler of its route
pub record Asked : Type 0 where
  pub route : Route
  pub call : Call
  pub incoming : Incoming
  pub handler : Request → Action Json

module _ (pipe : Pipe) (complaint : List Property → Fields → String) (sys : Platform)
    (production : Bool) where
  abbrev pub answer : Asked → Handler
  answer a s = serve pipe complaint sys production a.route a.call a.incoming a.handler s

  -- requests one after another
  abbrev pub after_all : List Asked → Server → Server
  after_all [] s = s
  after_all (a ∷ rest) s = after_all rest (answer a s).1

  entered-keeps :
      (a : Asked) (r : Result Request) (s : Server) (url : String) (value : Json)
      → Cache.get url s.cache ≡ some value
      → Cache.get url (entered pipe complaint a.route a.call a.incoming a.handler (r, s)).1.cache
        ≡ some value
  entered-keeps a (ok req) s url value known =
      handle-keeps a.call (checked pipe complaint a.route a.incoming a.handler req) s url value refl
        known
  entered-keeps a (err x) s url value known = known

  after_all-keeps :
      (asked : List Asked) (s : Server) (url : String) (value : Json)
      → Cache.get url s.cache ≡ some value
      → Cache.get url (after_all asked s).cache ≡ some value
  unfolding serve
  after_all-keeps [] s url value known = known
  after_all-keeps (a ∷ rest) s url value known =
      let (r, t) = on_world (admit sys production a.route a.incoming) s in
      after_all-keeps rest (answer a s).1 url value (entered-keeps a r t url value known)

  entered-remembers :
      (a : Asked) (r : Result Request) (s s' : Server) (value : Json)
      → entered pipe complaint a.route a.call a.incoming a.handler (r, s) ≡ (ok value, s')
      → Cache.get a.call.url s'.cache ≡ some value
  entered-remembers a (ok req) s s' value e =
      handle-remembers a.call (checked pipe complaint a.route a.incoming a.handler req) s s' value e
  entered-remembers a (err x) s s' value e = cc e

  -- Of requests that are answered one after another: once one has got a value, every later one with
  -- its url that the middleware and the guard let pass gets that same value, however many requests
  -- come in between and whatever method, tenant, user, body and handler it has; its handler is not
  -- run, since the tables, the connections and Redis are what the middleware left.
  pub serve_replays :
      (first later : Asked) (between : List Asked) (s s' : Server) (value : Json) (req : Request)
      (w : World)
      → answer first s ≡ (ok value, s')
      → later.call.url ≡ first.call.url
      → admit sys production later.route later.incoming (after_all between s').world ≡ (ok req, w)
      → ((answer later (after_all between s')).0 ≡ ok value)
        × ((answer later (after_all between s')).1.world ≡ w)
  unfolding serve
  serve_replays first later between s s' value req w given same admitted =
      let (r, t) = on_world (admit sys production first.route first.incoming) s in
      let u : Server = record (after_all between s') { world = w } in
      let known : Cache.get later.call.url u.cache ≡ some value = rw same (
        after_all-keeps between s' first.call.url value
          (entered-remembers first r t s' value given)) in
      rw
        (
          admitted,
          handle-replayed later.call
              (checked pipe complaint later.route later.incoming later.handler req) u value known,
        )
        (refl, refl)
