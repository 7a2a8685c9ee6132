-- ===== src/ServiceAuth/Access.antt =====
-- Who is let in by service authentication (src/xpd_report_agent/api/service_auth.py).
use xpd_report_agent.Prelude.{
  ◌↔◌, any, String, ◌≡◌, refl, sym, ap, ◌∙◌, ◌≢◌, inl, inr, Bool, true, false, not, ◌&&◌, Option,
  none, some, List, [], ◌∷◌, ◌++◌, arith, str_eq, eq_iff, eq_refl, if◌then◌else◌, Option-cases,
  length,
}
use Prim.Native.Char.{Char, code}
use mathlib.Core.List.{reverse, reverse-append, reverse-reverse}
use xpd_report_agent.Prelude.Text.{
  chars, of_chars, strip, append, is_space, drop_spaces, chars-append, of_chars-chars,
}
use xpd_report_agent.Prelude.Result.{◌>>◌, guard, Outcome, ok, err, bind_elim}
use xpd_report_agent.ServiceAuth.Config.{
  key_required, service_auth_enabled, ServiceAuthConfig, Environment, configured_api_key,
  service_auth_config, has_space, is_missing,
}
use xpd_report_agent.ServiceAuth.Bearer.{
  partition_space, token_of, bearer_token, is_key, bearer_authorization_matches, AuthError, denied,
  key_or_empty, authorize_with, authorize_service_request,
}

abbrev space : Char → Bool
space c = is_space (code c)

-- A key that can stand in a header.
abbrev pub IsToken : String → Type 0
IsToken k = (str_eq k "" ≡ false) × (str_eq k (strip k) ≡ true) × (has_space k ≡ false)

reverse-head :
    (c : Char) (s : List Char)
    → any space (c ∷ s) ≡ false
    → (d : Char) × (r : List Char) × (reverse (c ∷ s) ≡ d ∷ r) × (space d ≡ false)
reverse-head c [] h = (c, [], refl, ground arith)
reverse-head c (e ∷ s) h =
    let (d, r, p, q) = reverse-head e s (ground arith) in
    (d, r ++ c ∷ [], reverse-append (c ∷ []) (e ∷ s) ∙ ap (λ t. t ++ c ∷ []) p, q)

-- Spaces that stand before a spaceless text are not at an end.
drop_spaces-reverse :
    (s t : List Char)
    → any space s ≡ false
    → length s ≢ 0
    → drop_spaces (reverse (t ++ s)) ≡ reverse (t ++ s)
drop_spaces-reverse [] t h ne = absurd (ne refl)
drop_spaces-reverse (c ∷ s) t h ne =
    let (d, r, p, q) = reverse-head c s h in rw (reverse-append t (c ∷ s)) (rw p (rw q refl))

nonempty : (k : String) → str_eq k "" ≡ false → length (chars k) ≢ 0
nonempty String.[] h = absurd (ground arith)
nonempty (String.◌∷◌ c k) h = λ e. absurd (omega (arith, e))

-- The text of a header with the key
abbrev bearer : String → List Char
bearer k = chars "Bearer " ++ chars k

strip-bearer : (k : String) → IsToken k → strip (append "Bearer " k) ≡ append "Bearer " k
unfolding strip
strip-bearer k h =
    ap (λ t. of_chars (reverse (drop_spaces (reverse (drop_spaces t))))) (chars-append "Bearer " k)
    ∙ ap (λ t. of_chars (reverse t))
        (drop_spaces-reverse (chars k) (chars "Bearer ") h.2 (nonempty k h.0))
    ∙ ap of_chars (reverse-reverse (bearer k))

bearer_token-append :
    (casefold : String → String) (k : String)
    → IsToken k
    → bearer_token casefold (some (append "Bearer " k)) ≡ some k
unfolding bearer_token partition_space
bearer_token-append casefold k h = rw (strip-bearer k h) (
    ap (λ t. token_of casefold (partition_space t)) (chars-append "Bearer " k)
    ∙ rw (of_chars-chars k) (rw (eq_refl (casefold "Bearer")) (rw h.0 (rw h.1 (rw h.2 refl)))))

configured_api_key-IsToken :
    (raw : Option String) {k : String} → configured_api_key raw ≡ ok (some k) → IsToken k
unfolding configured_api_key
configured_api_key-IsToken none h = absurd (ground arith)
configured_api_key-IsToken (some raw) h = ground arith

abbrev Holds : Option String → Type 0
Holds api_key = (k : String) × (api_key ≡ some k) × IsToken k

given :
    (raw api_key : Option String)
    → configured_api_key raw ≡ ok api_key
    → is_missing api_key ≡ false
    → Holds api_key
given raw none h m = absurd (ground arith)
given raw (some k) h m = (k, refl, configured_api_key-IsToken raw h)

checked :
    (enabled : Bool) (api_key : Option String) {config : ServiceAuthConfig}
    → (guard (not (enabled && is_missing api_key)) key_required
        >> ok (record { enabled = enabled; api_key = api_key }))
      ≡ ok config
    → config.enabled ≡ true
    → (config.api_key ≡ api_key) × (is_missing api_key ≡ false)
checked true none h on = absurd (ground arith)
checked true (some k) h on = ground arith
checked false api_key h on = absurd (ground arith)

same : (t k : String) → is_key (some t) k ≡ true → str_eq t k ≡ true
same t k h = ground arith

own_key : (k : String) → IsToken k → is_key (some k) k ≡ true
own_key k h = rw h.0 (eq_refl k)

key_matches :
    (casefold : String → String) (k : String)
    → IsToken k
    → bearer_authorization_matches casefold (some (append "Bearer " k)) k ≡ true
unfolding bearer_authorization_matches
key_matches casefold k h = ap (λ t. is_key t k) (bearer_token-append casefold k h) ∙ own_key k h

abbrev admitted : Bool → Outcome AuthError (Unit {0})
admitted b = if b then ok tt else err denied

authorize_with-enabled :
    (casefold : String → String) (a : Option String) (config : ServiceAuthConfig) (k : String)
    → config.enabled ≡ true
    → config.api_key ≡ some k
    → authorize_with casefold a (ok config) ≡ admitted (bearer_authorization_matches casefold a k)
unfolding authorize_with
authorize_with-enabled casefold a config k on has =
    ground (arith, ap (λ t. bearer_authorization_matches casefold a (key_or_empty t)) has)

let_in : (b : Bool) → admitted b ≡ ok tt → b ≡ true
let_in true h = refl
let_in false h = absurd (ground arith)

-- The key is the only text that the test accepts.
matches-eq :
    (casefold : String → String) (a : Option String) (k : String)
    → bearer_authorization_matches casefold a k ≡ true
    → bearer_token casefold a ≡ some k
unfolding bearer_authorization_matches
matches-eq casefold a k h = elim (Option-cases (bearer_token casefold a)) [
  | inl e ↦ absurd (ground (arith, e))
  | inr (t, e) ↦ e ∙ ap some ((eq_iff t k).0 (same t k (rw e at h)))
]

module _ (lower casefold : String → String) (e : Environment) {config : ServiceAuthConfig}
    (configured : service_auth_config lower e ≡ ok config) where
  enabled-Holds : config.enabled ≡ true → Holds config.api_key
  unfolding service_auth_config
  enabled-Holds on = bind_elim (service_auth_enabled lower e) _ configured λ enabled h1 rest.
      bind_elim (configured_api_key e.service_api_key) _ rest λ api_key h2 rest'.
        let (same, there) = checked enabled api_key rest' on in
        given e.service_api_key config.api_key (h2 ∙ ap ok (sym same)) (ap is_missing same ∙ there)

  authorize-eq :
      (k : String)
      → config.enabled ≡ true
      → config.api_key ≡ some k
      → (a : Option String)
      → authorize_service_request lower casefold e a
        ≡ admitted (bearer_authorization_matches casefold a k)
  unfolding authorize_service_request
  authorize-eq k on has a = rw configured (authorize_with-enabled casefold a config k on has)

  -- Where authentication is configured and enabled, there is a key. A request with this key as its
  -- bearer token is let in, a request without a header is denied, and a request is let in if and only
  -- if its bearer token is this key.
  pub authorize_service_request_enabled :
      config.enabled ≡ true
      → (a : Option String)
      → (k : String) × (config.api_key ≡ some k)
        × (authorize_service_request lower casefold e (some (append "Bearer " k)) ≡ ok tt)
        × (authorize_service_request lower casefold e none ≡ err denied)
        × ((authorize_service_request lower casefold e a ≡ ok tt)
            ↔ (bearer_token casefold a ≡ some k))
  unfolding bearer_authorization_matches bearer_token
  authorize_service_request_enabled on a =
      let (k, has, token) = enabled-Holds on in
      let by_key = authorize-eq k on has in
      (
        k,
        has,
        by_key (some (append "Bearer " k)) ∙ ap admitted (key_matches casefold k token),
        by_key none,
        (
          λ h. matches-eq casefold a k (let_in _ (sym (by_key a) ∙ h)),
          λ h. by_key a ∙ ap admitted (ap (λ t. is_key t k) h ∙ own_key k token),
        ),
      )
