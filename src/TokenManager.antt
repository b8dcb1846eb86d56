-- ===== src/TokenManager.antt =====
-- pkg/syncer/topdown/token/token_manager.go: the cache of service-account tokens. Times are in
-- nanoseconds. An expiration is below 2 ^ 32 seconds, as the API server demands, so that no product of
-- the code wraps; the differences of the code are written as sums on the other side. The lock makes each
-- access to the cache one step.
pub mod Laws
use kubeocean.Dict.{lookup, put}
use kubeocean.Prelude.{
  ℕ, ◌+◌, ◌*◌, ◌/◌, ltb, Bool, true, false, not, ◌||◌, Option, none, some, List, [], ◌∷◌, String,
  str_dec, ◌==◌, ◌≠?◌, if◌then◌else◌, select,
}

abbrev pub second : ℕ
second = 1000000000

abbrev pub max_ttl : ℕ
max_ttl = 86400 * 1000000000

-- authenticationv1.TokenRequest: what is asked for, and the token with its end.
pub record TokenRequest : Type 0 where
  pub audiences : List String
  pub expiration : Option ℕ
  pub bound_uid : String
  pub token : String
  pub expires_at : ℕ

abbrev pub Cache : Type 0
Cache = List (String × TokenRequest)

abbrev pub expired : ℕ → TokenRequest → Bool
expired now t = ltb t.expires_at now

-- More than a day old, less the jitter, or within a fifth of its lifetime, and the jitter, of its end.
abbrev pub is_due : ℕ → ℕ → ℕ → ℕ → Bool
is_due now jitter expires_at lifetime =
    ltb (expires_at + max_ttl) (now + lifetime * second + jitter * second)
    || ltb expires_at (now + lifetime * 20 / 100 * second + jitter * second)

-- The jitter is up to ten seconds, at random.
abbrev pub requires_refresh : ℕ → ℕ → TokenRequest → Bool
requires_refresh now jitter t = elim t.expiration [
  | none ↦ false
  | some lifetime ↦ is_due now jitter t.expires_at lifetime
]

-- A token that could not be refreshed.
abbrev pub fall_back : ℕ → Option TokenRequest → Option TokenRequest
fall_back now none = none
fall_back now (some t) = if expired now t then none else some t

abbrev pub refresh :
    ℕ → String → Cache → Option TokenRequest → Option TokenRequest → Option TokenRequest × Cache
refresh now key cache cached none = (fall_back now cached, cache)
refresh now key cache cached (some t) = (some t, put key t cache)

abbrev pub with_cached :
    ℕ → ℕ → String → Cache → Option TokenRequest → Option TokenRequest → Option TokenRequest × Cache
with_cached now jitter key cache none fetched = refresh now key cache none fetched
with_cached now jitter key cache (some t) fetched =
    if requires_refresh now jitter t
    then refresh now key cache (some t) fetched
    else (some t, cache)

-- What is handed out, none being an error, and the cache after it; `fetched` is what the API server
-- answers, if it is asked.
unfoldable pub get_service_account_token :
    ℕ → ℕ → String → Option TokenRequest → Cache → Option TokenRequest × Cache
get_service_account_token now jitter key fetched cache =
    with_cached now jitter key cache (lookup str_dec key cache) fetched

unfoldable pub delete_service_account_token : String → Cache → Cache
delete_service_account_token uid cache =
    select (λ (e : String × TokenRequest). e.1.bound_uid ≠? uid) cache

unfoldable pub cleanup : ℕ → Cache → Cache
cleanup now cache = select (λ (e : String × TokenRequest). not (expired now e.1)) cache

-- The operations, with the time, the jitter and the answer of the server where they matter.
pub data Operation : Type 0 where
  get : ℕ → ℕ → String → Option TokenRequest → Operation
  delete_pod : String → Operation
  clean : ℕ → Operation

abbrev pub step : Operation → Cache → Cache
step (get now jitter key fetched) cache = (get_service_account_token now jitter key fetched cache).1
step (delete_pod uid) cache = delete_service_account_token uid cache
step (clean now) cache = cleanup now cache

-- The cache after some operations, the latest first.
unfoldable pub run : List Operation → Cache
run [] = []
run (op ∷ ops) = step op (run ops)
