-- ===== src/Http/Auth/Tests.antt =====
-- A token server whose answers are the numbers of a list: the time, or the seconds that a token lasts.
use vortara.Base.{ℕ, pos, true, [], ◌∷◌, none, ◌≡◌, refl, concat}
use vortara.Errors.{ok}
use vortara.Http.Auth.{
  AuthServices, ClientCredentials, TokenCache, get_token, new_authenticator, api_key_auth,
}
use vortara.Http.Auth.Tokens.{get_token-again}
use vortara.Text.{to_lower, trim_space, trim_left, trim_right, is_white}
use vortara.Value.{join}
use vortara.Base.{insert, some, false}

abbrev answers : ℕ → AuthServices ℕ
answers code = record {
  now = λ o. (o, o);
  refuse = λ url. none;
  post = λ url form o. (o, ok (code, form));
  encode_form = λ form. "form";
  decode_token = λ body. ok ("secret", pos 60);
  basic = λ u p. concat u p;
  with_query = λ url k v. url;
  canonical = λ k. k;
}

abbrev credentials : ClientCredentials
credentials = record {
  client_id = "id";
  client_secret = "s";
  token_url = "https://t";
  scopes = "a" ∷ "b" ∷ [];
}

abbrev no_token : TokenCache
no_token = record { cached_token = ""; expires_at = pos 0 }

abbrev kept_token : TokenCache
kept_token = record { cached_token = "secret"; expires_at = pos 60000000007 }

fetched : get_token (answers 200) credentials (no_token, 7) ≡ ((kept_token, 7), ok "secret")
unfolding get_token trim_space trim_left trim_right is_white join insert
fetched = refl

get_token-again_example :
    get_token (answers 200) credentials (kept_token, 9) ≡ ((kept_token, 9), ok "secret")
unfolding get_token trim_space trim_left trim_right is_white join insert
get_token-again_example = get_token-again (answers 200) credentials no_token 7 9 "secret" refl refl

-- `in_header: false` of a sync file has no effect: nothing sets `inHeaderSet`.
in_the_header :
    new_authenticator (record {
      type = "api_key";
      token = "";
      key = "k";
      value = "v";
      in_header = false;
      username = "";
      password = "";
      client_id = "";
      client_secret = "";
      token_url = "";
      scopes = [];
      in_header_set = false;
    })
    ≡ ok (some (api_key_auth "k" "v" true))
unfolding new_authenticator to_lower trim_space trim_left trim_right is_white
in_the_header = refl
