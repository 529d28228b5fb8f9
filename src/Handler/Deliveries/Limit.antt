-- ===== src/Handler/Deliveries/Limit.antt =====
-- The length of the list of deliveries.
use nitrohook.Prelude.{
  ℕ, ap, sym, [], String, ◌≡◌, ◌≤◌, refl, Option, none, some, List, length, take, length-take,
  order_by, select, leb, arith, inl, inr,
}
use nitrohook.Model.{Delivery}
use nitrohook.Io.{Db, Result, World, Host, ok, err, pure}
use nitrohook.Io.Reliable.{tick}
use nitrohook.Io.Outcomes.{query-cases}
use nitrohook.Dispatch.Net.{ℤ, pos, negsuc}
use nitrohook.Store.Deliveries
use nitrohook.Store.Deliveries.{of_slug}
use nitrohook.Handler.Deliveries.{
  Response, text, deliveries, source_slug, limit_or, limit_of, listed, list,
}

limit_or-bounds : (o : Option ℤ) → limit_or o ≤ 200
limit_or-bounds none = omega arith
limit_or-bounds (some (negsuc n)) = omega arith
limit_or-bounds (some (pos n)) = ground arith

limit_of-bounds : (atoi : String → Option ℤ) (l : String) → limit_of atoi l ≤ 200
unfolding limit_of
limit_of-bounds atoi l = ground (arith, limit_or-bounds (atoi l))

-- A list that is given has at most `n` rows.
pub data IsListed (n : ℕ) : Response → Type 0 where
  refused : (status : ℕ) (t : String) → 400 ≤ status → IsListed n (text status t)
  given : (ds : List Delivery) → length ds ≤ n → IsListed n (deliveries ds)

-- The rows of the SELECT, before its LIMIT.
abbrev rows : String → Db → List Delivery
rows slug db =
    order_by (λ a b. leb b.received_at a.received_at)
      (select (of_slug (source_slug slug) db) db.deliveries)

-- The rows of a result, if it has any.
abbrev rows_of : Result (List Delivery) → List Delivery
rows_of (err e) = []
rows_of (ok ds) = ds

length-limited :
    (atoi : String → Option ℤ) (limit : String) (all ds : List Delivery)
    → ◌≡◌ {A = Result (List Delivery)} (ok (take (limit_of atoi limit) all)) (ok ds)
    → length ds ≤ 200
length-limited atoi limit all ds h =
    rw (sym (ap rows_of h))
      (omega (arith, length-take (limit_of atoi limit) all, limit_of-bounds atoi limit))

-- Whatever the parameters of the query and whether the read fails or not, the answer is an error
-- or a list of at most 200 deliveries, and no table changes.
pub list-IsListed :
    (host : Host) (atoi : String → Option ℤ) (slug limit : String) (w : World)
    → IsListed 200 (list host atoi slug limit w).0 × ((list host atoi slug limit w).1 ≡ tick w)
unfolding list Deliveries.list listed pure
list-IsListed host atoi slug limit w =
    elim (query-cases host (λ _ db. ok (take (limit_of atoi limit) (rows slug db))) w) [
      | inl (e, p) ↦ rw p (refused _ _ (omega arith), refl)
      | inr (ds, h, p) ↦ rw p (given ds (length-limited atoi limit (rows slug w.db) ds h), refl)
    ]
