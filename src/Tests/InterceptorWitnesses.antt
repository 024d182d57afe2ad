-- ===== src/Tests/InterceptorWitnesses.antt =====
-- The theorems on the interceptors, the keys of Redis and the pages at concrete inputs.
use multitenancy.Prelude.{
  ℕ, String, true, Option, none, some, List, [], ◌∷◌, ◌≡◌, refl, arith, ◌↔◌, ◌≤◌, ◌*◌, ◌+◌, ◌<◌,
  length, if◌then◌else◌,
}
use multitenancy.Prelude.Int.{pos}
use multitenancy.Json.{str}
use multitenancy.Exceptions.{database}
use multitenancy.Cache
use multitenancy.World.{ok, err}
use multitenancy.Interceptors.{
  Server, Call, Handler, handle, timeout, envelope, limit_of, success_line,
}
use multitenancy.Interceptors.Outcomes.{Reported, handle_fails, handle_succeeds}
use multitenancy.Redis.{retry_strategy}
use multitenancy.Redis.Delays.{retry_strategy_lem}
use multitenancy.Pagination
use multitenancy.Pagination.{clamp_page, clamp_limit, offset_of}
use multitenancy.Pagination.Pages.{pages, pages_cover}
use multitenancy.Tests.Memory.{empty_world}

abbrev quiet : Server
quiet = record { world = empty_world; cache = Cache.new; responses = []; log = [] }

abbrev products_call : Call
products_call = record {
  url = "/products";
  method = "GET";
  controller = "ProductsController";
  pattern = "getProducts";
  success_message = none;
  request_timeout = none;
  status_code = 200;
  duration = 5;
}

abbrev slow_call : Call
slow_call = record products_call { duration = 30000 }

abbrev answers : Handler
answers s = (ok (str "widgets"), s)

abbrev fails : Handler
fails s = (err (database "down"), s)

abbrev answered : Server
answered = (handle products_call answers quiet).1

handle_fails_example : Reported (database "down") quiet (handle products_call fails quiet)
unfolding timeout limit_of Cache.get multitenancy.Prelude.Assoc.find
handle_fails_example = handle_fails products_call fails quiet quiet (database "down") refl refl

handle_succeeds_example :
    let (r, v) = handle products_call answers quiet in
    let reply = envelope products_call 0 (str "widgets") in
    (r ≡ ok reply)
    × (Cache.get "/products" v.cache ≡ some reply)
    × (v.world ≡ empty_world)
    × (v.responses ≡ [])
    × (v.log ≡ success_line products_call 0 0 ∷ [])
unfolding timeout limit_of Cache.get multitenancy.Prelude.Assoc.find
handle_succeeds_example =
    handle_succeeds products_call answers quiet quiet (str "widgets") refl refl

retry_strategy_lem_example :
    (retry_strategy 3 ≡ some 300) ↔ ((3 ≤ 10) × (300 ≡ 3 * 100) × (300 ≤ 1000))
retry_strategy_lem_example = retry_strategy_lem 3 300

pages_cover_example :
    pages {A = String}
      (clamp_limit (pos 2))
      ("a" ∷ "b" ∷ "c" ∷ [])
      (Pagination.meta_of 3 1 (clamp_limit (pos 2))).total_pages
    ≡ "a" ∷ "b" ∷ "c" ∷ []
pages_cover_example = pages_cover (pos 2) ("a" ∷ "b" ∷ "c" ∷ [])
