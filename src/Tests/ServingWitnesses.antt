-- ===== src/Tests/ServingWitnesses.antt =====
-- The theorems on requests in front of their handlers at concrete inputs.
use multitenancy.Prelude.{String, true, none, some, List, [], ◌∷◌, ◌≡◌, refl}
use multitenancy.Json.{Json, null, str, Fields, end, field}
use multitenancy.Cache
use multitenancy.World.{Action, Result, ok, err, pure, ◌>>=◌}
use multitenancy.Platform.{TokenPayload}
use multitenancy.Invitations.{AcceptInvitationDto}
use multitenancy.Requests.{Request, other, use_tenant, handle_request}
use multitenancy.Bodies.{Property}
use multitenancy.Controllers.{post_accept}
use multitenancy.Interceptors.{Server, Call, handle}
use multitenancy.Interceptors.Outcomes.{is_error}
use multitenancy.Serving.{accept_invitation, get_products, create_product, Incoming, admit, serve}
use multitenancy.Serving.Refusals.{Untouched, serve_refuses}
use multitenancy.Serving.Replays.{Asked, answer, after_all, serve_replays}
use multitenancy.Tests.Memory.{memory}
use multitenancy.Tests.Acme.{acme, acme_world, ups}
use multitenancy.Tests.Pipe.{pipe}

abbrev complaint : List Property → Fields → String
complaint class body = "Bad Request"

abbrev to_acme : Request
to_acme = record { hostname = "acme.example.com"; slug_header = none; tenant = none; user = none }

abbrev bob : AcceptInvitationDto
bob = record { token = "t1"; password = "secret"; display_name = "Bob" }

-- Bob, who has no account yet, accepts his invitation.
abbrev first_visit : Incoming
first_visit = record {
  request = to_acme;
  body =
      field "token" (str "t1")
        (field "password" (str "secret") (field "displayName" (str "Bob") end));
  error = none;
  user = none;
  info = other;
}

abbrev quiet : Server
quiet = record { world = acme_world; cache = Cache.new; responses = []; log = [] }

abbrev accept_call : Call
accept_call = record {
  url = "/api/v1/tenant/accept-invitation";
  method = "POST";
  controller = "TenantController";
  pattern = "acceptInvitation";
  success_message = some "Invitation accepted successfully";
  request_timeout = none;
  status_code = 201;
  duration = 5;
}

abbrev accepts_bob : Request → Action Json
accepts_bob req = do u ← post_accept memory ups bob; pure (str u.email)

abbrev does_nothing : Request → Action Json
does_nothing req = pure null

serve_refuses_example :
    let answer =
      serve pipe complaint memory true accept_invitation accept_call first_visit accepts_bob
        quiet in
    (is_error answer.0 ≡ true)
    × Untouched acme_world answer.1.world
    × (answer.1.cache ≡ Cache.new)
    × (serve pipe complaint memory true accept_invitation accept_call first_visit does_nothing quiet
        ≡ answer)
unfolding handle_request
serve_refuses_example =
    serve_refuses pipe complaint memory true accept_invitation accept_call first_visit accepts_bob
      does_nothing quiet refl

abbrev ann : TokenPayload
ann = record { sub = "u1"; role = "owner"; schema_name = "acme" }

abbrev from_ann : Incoming
from_ann = record { request = to_acme; body = end; error = none; user = some ann; info = other }

abbrev products_call : Call
products_call = record accept_call {
  url = "/api/v1/products";
  method = "GET";
  controller = "ProductsController";
  pattern = "getProducts";
}

-- Ann lists the products, Bob tries his invitation, and then a product is posted without a title.
abbrev listing : Asked
listing = record {
  route = get_products;
  call = products_call;
  incoming = from_ann;
  handler = λ req. pure (str "no products");
}

abbrev visit : Asked
visit = record {
  route = accept_invitation;
  call = accept_call;
  incoming = first_visit;
  handler = accepts_bob;
}

abbrev posting : Asked
posting = record {
  route = create_product;
  call = record products_call { method = "POST"; pattern = "createProduct" };
  incoming = from_ann;
  handler = does_nothing;
}

abbrev listed : Result Json × Server
listed = answer pipe complaint memory true listing quiet

abbrev value_of : Result Json → Json
value_of (ok value) = value
value_of (err x) = null

abbrev before_posting : Server
before_posting = after_all pipe complaint memory true (visit ∷ []) listed.1

serve_replays_example :
    ((answer pipe complaint memory true posting before_posting).0 ≡ ok (value_of listed.0))
    × ((answer pipe complaint memory true posting before_posting).1.world
        ≡ (admit memory true create_product from_ann before_posting.world).1)
unfolding serve admit ◌>>=◌ use_tenant multitenancy.Requests.slug_of
    multitenancy.Requests.first_label multitenancy.Repository.find_one multitenancy.Serving.guard
    handle_request handle Cache.has multitenancy.Prelude.Assoc.find multitenancy.Serving.validated
serve_replays_example =
    serve_replays pipe complaint memory true listing posting (visit ∷ []) quiet listed.1
      (value_of listed.0) (record to_acme { tenant = some acme; user = some ann })
      (admit memory true create_product from_ann before_posting.world).1 refl refl refl
