-- ===== src/Proxy/Credentials.antt =====
-- eest_replay/rpc_proxy.py: `split_basic_auth`, the credentials of a URL.
use buildoor_tester.Base.{
  ℕ, zero, suc, ◌≡◌, refl, ap, false, Bool-cases, inl, inr, Option, none, some, get_or, is_truthy,
  List, [], ◌∷◌, String, ◌<>◌, pos, if◌then◌else◌,
}
use buildoor_tester.Base.Numeral.{decimal}

-- The result of `urlsplit`.
pub record UrlParts : Type 0 where
  pub scheme : String
  pub username : Option String
  pub password : Option String
  pub hostname : Option String
  pub port : Option ℕ
  pub path : String
  pub query : String
  pub fragment : String

-- `urlsplit`, `urlunsplit` of a scheme, a netloc, a path, a query and a fragment, and
-- `base64.b64encode` of a text in UTF-8, as a text.
pub record UrlLibrary : Type 0 where
  pub urlsplit : String → UrlParts
  pub urlunsplit : String → String → String → String → String → String
  pub b64encode : String → String

-- `if parts.port`.
abbrev port_text : Option ℕ → String
port_text none = ""
port_text (some zero) = ""
port_text (some (suc n)) = ":" <> decimal (pos (suc n))

unfoldable pub netloc_of : UrlParts → String
netloc_of parts = get_or parts.hostname "" <> port_text parts.port

module _ (L : UrlLibrary) where
  -- The URL without its credentials, and the headers.
  unfoldable pub split_basic_auth : String → String × List (String × String)
  unfolding netloc_of
  split_basic_auth url =
      let parts = L.urlsplit url in
      let token = L.b64encode (get_or parts.username "" <> (":" <> get_or parts.password "")) in
      if is_truthy parts.username
      then (
        L.urlunsplit parts.scheme (netloc_of parts) parts.path parts.query parts.fragment,
        ("Authorization", "Basic " <> token) ∷ [],
      )
      else (url, [])

  split_basic_auth-alone :
      (url : String)
      → is_truthy (L.urlsplit url).username ≡ false
      → split_basic_auth url ≡ (url, [])
  unfolding split_basic_auth
  split_basic_auth-alone url e = rw e refl

  -- With the documented behaviour of the library, that a URL put together without `@` before its path
  -- has no user: the URL that comes out carries no credentials, so that a second call leaves it alone
  -- and finds none.
  pub split_basic_auth-twice :
      ((url : String)
        → let p = L.urlsplit url in
          (L.urlsplit (L.urlunsplit p.scheme (netloc_of p) p.path p.query p.fragment)).username
          ≡ none)
      → (url : String) → split_basic_auth (split_basic_auth url).0 ≡ ((split_basic_auth url).0, [])
  unfolding split_basic_auth
  split_basic_auth-twice law url = elim (Bool-cases (is_truthy (L.urlsplit url).username)) [
    | inl user ↦
        let p = L.urlsplit url in
        rw user (
          split_basic_auth-alone (L.urlunsplit p.scheme (netloc_of p) p.path p.query p.fragment)
            (ap is_truthy (law url)))
    | inr nobody ↦ rw nobody (split_basic_auth-alone url nobody)
  ]
