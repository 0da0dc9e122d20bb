-- ===== src/Destinations/RestApi/Headers.antt =====
-- The headers of a request.
use vortara.Base.{
  String, [], ◌∷◌, some, Assoc, lookup, insert, lookup-insert, lookup-insert_self, All, ◌==◌, ◌≡◌,
  ◌≢◌, refl, ◌∙◌, if◌then◌else◌, test_of_ne,
}
use vortara.Destinations.RestApi.{Network, RestApi, set_headers, build_request}

module _ {O : Type 0} (net : Network O) where
  set_headers-lookup :
      (hs base : Assoc String) (k : String)
      → All (λ h. net.canonical h.0 ≢ k) hs
      → lookup k (set_headers net hs base) ≡ lookup k base
  unfolding set_headers
  set_headers-lookup [] base k h = refl
  set_headers-lookup ((j, v) ∷ hs) base k (g, h) =
      set_headers-lookup hs (insert (net.canonical j) v base) k h
      ∙ lookup-insert (net.canonical j) k v base
      ∙ other (net.canonical j) g
    where
      other : (i : String) → i ≢ k → (if i == k then some v else lookup k base) ≡ lookup k base
      other i e = rw (test_of_ne i k e) refl

  -- Every request for a row carries the row's id as its idempotency key, unless a configured header has
  -- that name.
  build_request-idempotent :
      (r : RestApi) (row_id body : String)
      → All (λ h. net.canonical h.0 ≢ net.canonical "X-Idempotency-Key") r.headers
      → lookup (net.canonical "X-Idempotency-Key") (build_request net r row_id body).headers
        ≡ some row_id
  unfolding build_request
  build_request-idempotent r row_id body h =
      set_headers-lookup r.headers _ (net.canonical "X-Idempotency-Key") h
      ∙ lookup-insert_self (net.canonical "X-Idempotency-Key") row_id _
