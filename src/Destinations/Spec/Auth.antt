-- ===== src/Destinations/Spec/Auth.antt =====
-- What Connect says to the configurations of a run and of a replay.
use vortara.Base.{
  ℤ, String, true, false, not, ◌&&◌, ◌==◌, Option, some, ◌≡◌, refl, Bool-cases, Option-cases, inl,
  inr,
}
use vortara.Destinations.Connect.{connected, object_of}
use vortara.Destinations.Spec.{AuthSpec, DestinationSpec, auth_config, run_config, replay_config}
use vortara.Destinations.RestApi.Connect.{connect}
use vortara.Destinations.Intercom
use vortara.Destinations.Zendesk
use vortara.Errors.{GoError, Result, err, missing_auth, connect_required}
use vortara.Http.Auth.{AuthConfig, new_authenticator}
use vortara.Text.{to_lower, trim_space, trim_left, trim_right, trim_slashes}

no_key :
    (cfg : AuthConfig)
    → to_lower (trim_space cfg.type) ≡ "api_key"
    → (trim_space cfg.key == "") ≡ true
    → new_authenticator cfg ≡ err (missing_auth "api_key")
unfolding new_authenticator
no_key cfg t k = rw (t, k) refl

copied_key :
    (a : AuthSpec)
    → to_lower (trim_space a.type) ≡ "api_key"
    → new_authenticator (auth_config (some a)) ≡ err (missing_auth "api_key")
unfolding auth_config trim_space trim_left trim_right
copied_key a t = no_key (auth_config (some a)) t refl

key_refused :
    (parse : String → Result ℤ) (d : DestinationSpec) (a : AuthSpec)
    → d.auth ≡ some a
    → to_lower (trim_space a.type) ≡ "api_key"
    → connected parse (run_config d) ≡ err (missing_auth "api_key")
unfolding connected run_config
key_refused parse d a h t = rw (h, connected, copied_key a t) refl

-- Connect returned an error.
abbrev pub Refused : {A : Type 0} → Result A → Type 0
Refused r = (e : GoError) × (r ≡ err e)

module _ (parse : String → Result ℤ) (d : DestinationSpec)
    (h : connected parse (run_config d) ≡ err (missing_auth "api_key")) where
  zendesk-Refused : Refused (Zendesk.connect parse (run_config d))
  unfolding Zendesk.connect
  zendesk-Refused =
      let object = object_of (run_config d) "users" in
      elim (Bool-cases (trim_slashes (trim_space (run_config d).url) == "")) [
        | inl a ↦ rw a (_, refl)
        | inr a ↦ elim (Bool-cases (not (object == "users") && not (object == "tickets"))) [
          | inl b ↦ rw (a, b) (_, refl)
          | inr b ↦ elim (Bool-cases (trim_space (run_config d).match_on == "")) [
            | inl c ↦ rw (a, b, c) (_, refl)
            | inr c ↦ rw (a, b, c, h) (_, refl)
          ]
        ]
      ]

  intercom-Refused : Refused (Intercom.connect parse (run_config d))
  unfolding Intercom.connect
  intercom-Refused =
      let object = object_of (run_config d) "contacts" in
      elim (Bool-cases (not (object == "contacts") && not (object == "companies"))) [
        | inl b ↦ rw b (_, refl)
        | inr b ↦ elim (Bool-cases (trim_space (run_config d).match_on == "")) [
          | inl c ↦ rw (b, c) (_, refl)
          | inr c ↦ rw (b, c, h) (_, refl)
        ]
      ]

  rest-Refused : (uri : String → Option GoError) → Refused (connect parse uri (run_config d))
  unfolding connect
  rest-Refused uri = elim (Bool-cases (trim_space (run_config d).url == "")) [
    | inl a ↦ rw a (_, refl)
    | inr a ↦ elim (Option-cases (uri (run_config d).url)) [
      | inr (e, b) ↦ rw (a, b) (_, refl)
      | inl b ↦ rw (a, b, h) (_, refl)
    ]
  ]

-- In a run, Connect of the REST API, Zendesk and Intercom returns an error for every destination whose sync
-- file asks for an API key, also one with a key and a value: they are not copied.
pub run_config-api_key :
    (parse : String → Result ℤ) (uri : String → Option GoError) (d : DestinationSpec) (a : AuthSpec)
    → d.auth ≡ some a
    → to_lower (trim_space a.type) ≡ "api_key"
    → Refused (connect parse uri (run_config d))
      × Refused (Zendesk.connect parse (run_config d))
      × Refused (Intercom.connect parse (run_config d))
run_config-api_key parse uri d a h t =
    let k = key_refused parse d a h t in
    (rest-Refused parse d k uri, zendesk-Refused parse d k, intercom-Refused parse d k)

-- A replay refuses every Zendesk destination that has a URL and an object that it knows: the match fields
-- are not copied.
replay_config-zendesk :
    (parse : String → Result ℤ) (d : DestinationSpec)
    → (trim_slashes (trim_space d.url) == "") ≡ false
    → (not (object_of (replay_config d) "users" == "users")
        && not (object_of (replay_config d) "users" == "tickets"))
      ≡ false
    → Zendesk.connect parse (replay_config d) ≡ err (connect_required "zendesk" "match_on")
unfolding Zendesk.connect replay_config trim_space trim_left trim_right
replay_config-zendesk parse d h o = rw (h, o) refl
