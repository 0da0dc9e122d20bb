-- ===== src/Http/Auth/Tokens.antt =====
-- The token that OAuth2ClientCredentials keeps.
use vortara.Base.{
  ℕ, ℤ, String, true, false, ◌≡◌, refl, sym, ap, ◌∙◌, arith, ◌==◌, eq_iff, ◌||◌, ltb, leb,
  Option-cases, Bool-cases, inl, inr,
}
use vortara.Errors.{GoError, Result, ok, err, Result-cases}
use vortara.Http.Auth.{
  AuthServices, ClientCredentials, TokenCache, lasts, is_blank, token_form, keep_token, read_token,
  fetch_token, get_token,
}
use vortara.Text.{trim_space, trim_left, trim_right}

-- What a call leaves: after an error the token of before, and otherwise the token that it returns.
abbrev pub Keeps : {O : Type 0} → TokenCache → (TokenCache × O) × Result String → Type 0
Keeps cache ((cache', o), err e) = cache' ≡ cache
Keeps cache ((cache', o), ok token) = (cache'.cached_token ≡ token) × ((token == "") ≡ false)

true-false : ¬ (true ≡ false)
true-false h = ground arith

blank_empty : (s : String) → is_blank s ≡ false → (s == "") ≡ false
unfolding trim_space trim_left trim_right
blank_empty s h = elim (Bool-cases (s == "")) [
  | inl g ↦ absurd (true-false (sym (ap is_blank ((eq_iff s "").0 g)) ∙ h))
  | inr g ↦ g
]

module _ {O : Type 0} (services : AuthServices O) where
  keep-Keeps :
      (answer : String × ℤ) (cache : TokenCache) (o : O)
      → Keeps cache (keep_token services answer (cache, o))
  unfolding keep_token
  keep-Keeps (token, n) cache o = elim (Bool-cases (is_blank token)) [
    | inl h ↦ rw (h, keep_token) refl
    | inr h ↦ rw (h, keep_token) (refl, blank_empty token h)
  ]

  read-Keeps :
      (answer : ℕ × String) (cache : TokenCache) (o : O)
      → Keeps cache (read_token services answer (cache, o))
  unfolding read_token
  read-Keeps (code, body) cache o = elim (Bool-cases (ltb code 200 || leb 300 code)) [
    | inl h ↦ rw (h, read_token) refl
    | inr h ↦ elim (Result-cases (services.decode_token body)) [
      | inl (e, g) ↦ rw (h, g, read_token) refl
      | inr (answer, g) ↦ rw (h, g, read_token) (keep-Keeps answer cache o)
    ]
  ]

  fetch-Keeps :
      (c : ClientCredentials) (cache : TokenCache) (o : O)
      → Keeps cache (fetch_token services c (cache, o))
  unfolding fetch_token
  fetch-Keeps c cache o = elim (Option-cases (services.refuse c.token_url)) [
    | inr (e, h) ↦ rw (h, fetch_token) refl
    | inl h ↦
        let (o', r) = services.post c.token_url (services.encode_form (token_form c)) o in
        elim (Result-cases r) [
          | inl (e, g) ↦ rw (h, g, fetch_token) refl
          | inr (answer, g) ↦ rw (h, g, fetch_token) (read-Keeps answer cache o')
        ]
  ]

  get-Keeps :
      (c : ClientCredentials) (cache : TokenCache) (o : O)
      → Keeps cache (get_token services c (cache, o))
  unfolding get_token
  get-Keeps c cache o = elim (Bool-cases (cache.cached_token == "")) [
    | inl h ↦ rw (h, get_token) (fetch-Keeps c cache o)
    | inr h ↦ elim (Bool-cases (lasts (services.now o).1 cache.expires_at)) [
      | inl g ↦ rw (h, g, get_token) (refl, h)
      | inr g ↦ rw (h, g, get_token) (fetch-Keeps c cache (services.now o).0)
    ]
  ]

  reuse :
      (c : ClientCredentials) (token : String) (p : (TokenCache × O) × Result String)
      (cache : TokenCache) (o : O)
      → Keeps cache p
      → p.1 ≡ ok token
      → lasts (services.now o).1 p.0.0.expires_at ≡ true
      → get_token services c (p.0.0, o) ≡ ((p.0.0, (services.now o).0), ok token)
  unfolding get_token
  reuse c token ((cache', o'), err e) cache o k h l = absurd (ground arith)
  reuse c token ((cache', o'), ok t) cache o (k, z) h l =
      rw (ap (λ s. s == "") k ∙ z, l, get_token)
        (ap (λ r. ((cache', (services.now o).0), r)) (ap ok k ∙ h))

  unchanged :
      (e : GoError) (p : (TokenCache × O) × Result String) (cache : TokenCache)
      → Keeps cache p
      → p.1 ≡ err e
      → p.0.0 ≡ cache
  unchanged e ((cache', o'), err x) cache k h = k
  unchanged e ((cache', o'), ok t) cache k h = absurd (ground arith)

-- A token that a call returns is the one that the next calls return without a request to the server, only
-- with the time asked for, as long as it lasts for more than thirty seconds.
pub get_token-again :
    {O : Type 0} (services : AuthServices O) (c : ClientCredentials) (cache : TokenCache) (o o' : O)
    (token : String)
    → (get_token services c (cache, o)).1 ≡ ok token
    → let kept = (get_token services c (cache, o)).0.0 in
      lasts (services.now o').1 kept.expires_at ≡ true
      → get_token services c (kept, o') ≡ ((kept, (services.now o').0), ok token)
get_token-again services c cache o o' token h l =
    reuse services c token (get_token services c (cache, o)) cache o' (get-Keeps services c cache o)
      h l

-- A call that returns an error leaves the token that was kept as it was.
pub get_token-error :
    {O : Type 0} (services : AuthServices O) (c : ClientCredentials) (cache : TokenCache) (o : O)
    (e : GoError)
    → (get_token services c (cache, o)).1 ≡ err e
    → (get_token services c (cache, o)).0.0 ≡ cache
get_token-error services c cache o e h =
    unchanged services e (get_token services c (cache, o)) cache (get-Keeps services c cache o) h
