-- ===== src/Server/Logging.antt =====
-- internal/middleware/logging.go: the id of a request, around the handler that the request reaches.
use nitrohook.Prelude.{
  String, ◌≡◌, refl, ◌≢◌, false, In, ap, List, [], ◌∷◌, some, same, if◌then◌else◌, eq_iff, arith,
  Bool-cases, inl, inr,
}
use nitrohook.Io.{World, Io, ◌>>=◌, call, pure}
use nitrohook.Io.Reliable.{tick}
use nitrohook.Handler.Ingest
use nitrohook.Handler.Ingest.{Request, sent_header, header_map, ingest}
use nitrohook.Handler.Ingest.Taken.{IsUntouched, IsIngested, ingest-IsIngested}
use nitrohook.Routes.{Params, webhook_ingest, param, routes}
use nitrohook.Server.{
  Server, Incoming, Answer, ingested, ingest_request, serve, serve_found, handle,
}

-- The id of a request is among the headers that are stored, and no other id is.
header_map-named :
    (r : Request) (id : String)
    → In ("X-Request-ID", id) (header_map (record r { request_id = some id }))
unfolding header_map
header_map-named r id = elim (Bool-cases (same (r.header "Content-Type") "")) [
  | inl e ↦ elim (Bool-cases (same (r.header "X-Webhook-ID") "")) [
    | inl q ↦ rw (e, q) (inl refl)
    | inr q ↦ rw (e, q) (inr (inl refl))
  ]
  | inr e ↦ elim (Bool-cases (same (r.header "X-Webhook-ID") "")) [
    | inl q ↦ rw (e, q) (inr (inl refl))
    | inr q ↦ rw (e, q) (inr (inr (inl refl)))
  ]
]

-- A header under another name is not the id.
In-other :
    (key value v : String) (rest : List (String × String))
    → same key "X-Request-ID" ≡ false
    → In ("X-Request-ID", v) ((key, value) ∷ rest)
    → In ("X-Request-ID", v) rest
In-other key value v rest other (inl e) =
    let named : "X-Request-ID" ≡ key = ap (λ x. x.0) e in ground (arith, eq_iff key "X-Request-ID")
In-other key value v rest other (inr m) = m

In-one :
    (id v : String)
    → In {A = String × String} ("X-Request-ID", v) (("X-Request-ID", id) ∷ [])
    → v ≡ id
In-one id v (inl e) = ap (λ x. x.1) e
In-one id v (inr m) = absurd m

header_map-only :
    (r : Request) (id v : String)
    → In ("X-Request-ID", v) (header_map (record r { request_id = some id }))
    → v ≡ id
unfolding header_map
header_map-only r id v m =
    let last : List (String × String) = ("X-Request-ID", id) ∷ [] in
    let hook : String = r.header "X-Webhook-ID" in
    let type : String = r.header "Content-Type" in
    elim (Bool-cases (same type "")) [
      | inl e ↦ elim (Bool-cases (same hook "")) [
        | inl q ↦ In-one id v (rw (e, q) at m)
        | inr q ↦ In-one id v (In-other "X-Webhook-ID" hook v last refl (rw (e, q) at m))
      ]
      | inr e ↦ elim (Bool-cases (same hook "")) [
        | inl q ↦ In-one id v (In-other "Content-Type" type v last refl (rw (e, q) at m))
        | inr q ↦
            let rest : List (String × String) = ("X-Webhook-ID", hook) ∷ last in
            In-one id v (
              In-other "X-Webhook-ID" hook v last refl
                (In-other "Content-Type" type v rest refl (rw (e, q) at m)))
      ]
    ]

module _ (server : Server) where
  open server use {host, vm, json}

  -- The header X-Request-ID of the request, or uuid.New().String().
  unfoldable pub request_id : Incoming → Io String
  unfolding call pure
  request_id r =
      let given = r.page.header "X-Request-ID" in
      if same given "" then (do n ← call; pure (host.uuid_string (host.gen_uuid n))) else pure given

  -- The answer has the id as its header X-Request-ID.
  unfoldable pub logged : Incoming → Io (String × Answer vm)
  unfolding request_id pure
  logged r = do
    id ← request_id r
    a ← handle server (record r { request_id = some id })
    pure (id, a)

  -- What the answer to a webhook tells of its delivery.
  pub record IsTraced (r : Incoming) (slug : String) (w : World)
      (out : (String × Answer vm) × World) : Type 0 where
    pub given : r.page.header "X-Request-ID" ≢ "" → out.0.0 ≡ r.page.header "X-Request-ID"
    pub start : World
    pub untouched : IsUntouched w start
    pub response : Ingest.Response
    pub answer : out.0.1 ≡ ingested response
    pub named :
        In
          ("X-Request-ID", out.0.0)
          (header_map (record (ingest_request server r slug) { request_id = some out.0.0 }))
    pub only :
        (v : String)
        → In
            ("X-Request-ID", v)
            (header_map (record (ingest_request server r slug) { request_id = some out.0.0 }))
        → v ≡ out.0.0
    pub stored :
        IsIngested host json
          (record (ingest_request server r slug) { request_id = some out.0.0 })
          start
          (response, out.1)

  request_id-eq :
      (r : Incoming) (w : World)
      → (id : String) × (v : World) × (request_id r w ≡ (id, v))
        × IsUntouched w v
        × (r.page.header "X-Request-ID" ≢ "" → id ≡ r.page.header "X-Request-ID")
  unfolding request_id call pure
  request_id-eq r w = elim (Bool-cases (same (r.page.header "X-Request-ID") "")) [
    | inl e ↦ (
      host.uuid_string (host.gen_uuid w.calls),
      tick w,
      rw e refl,
      record { db = refl; published = refl },
      λ h. ground (arith, eq_iff (r.page.header "X-Request-ID") ""),
    )
    | inr e ↦ (
      r.page.header "X-Request-ID",
      w,
      rw e refl,
      record { db = refl; published = refl },
      λ h. refl,
    )
  ]

  -- A webhook that the middleware lets through to Ingest is answered with an id, the one that it
  -- brings if it brings one, and whichever calls fail, its delivery is stored, if it is stored, with
  -- headers among which X-Request-ID is this id and no other.
  pub logged-IsTraced :
      (r : Incoming) (p : Params) (w : World)
      → server.router routes r.method r.path ≡ some (webhook_ingest, p)
      → IsTraced r (param p "sourceSlug") w (logged r w)
  unfolding logged handle serve_found serve pure
  logged-IsTraced r p w reached =
      let (id, v, e, as_before, given) = request_id-eq r w in
      rw (e, reached)
        (record {
          given = given;
          start = v;
          untouched = as_before;
          response = _;
          answer = refl;
          named = header_map-named (ingest_request server r (param p "sourceSlug")) id;
          only = header_map-only (ingest_request server r (param p "sourceSlug")) id;
          stored =
              ingest-IsIngested host json
                (record (ingest_request server r (param p "sourceSlug")) { request_id = some id })
                v;
        })
