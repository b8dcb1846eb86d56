-- ===== src/TokenManager/Laws.antt =====
-- Which tokens the manager hands out.
use kubeocean.Dict.{lookup, insert, put}
use kubeocean.Prelude.{
  ℕ, ltb, ◌≡◌, ◌≢◌, refl, subst, ite, ◌⊎◌, inl, inr, Bool, true, false, Option, none, some, List,
  [], ◌∷◌, String, str_dec, arith, if◌then◌else◌, select, All,
}
use kubeocean.TokenManager.{
  TokenRequest, Cache, expired, is_due, requires_refresh, fall_back, refresh, with_cached,
  get_service_account_token, delete_service_account_token, cleanup, Operation, get, delete_pod,
  clean, step, run,
}

-- The server answers with the lifetime of the token, as it does.
abbrev pub Answers : Operation → Type 0
Answers (get now jitter key (some t)) = t.expiration ≢ none
Answers _ = Unit

abbrev Timed : Cache → Type 0
Timed cache = All (λ (e : String × TokenRequest). e.1.expiration ≢ none) cache

select-Timed :
    (p : String × TokenRequest → Bool) (cache : Cache) → Timed cache → Timed (select p cache)
select-Timed p [] h = tt
select-Timed p (e ∷ cache) h = by_test (p e) (select-Timed p cache h.1)
  where
    by_test :
        (b : Bool)
        → Timed (select p cache)
        → Timed (if b then e ∷ select p cache else select p cache)
    by_test true k = (h.0, k)
    by_test false k = k

put-Timed :
    (k : String) (t : TokenRequest) (cache : Cache)
    → t.expiration ≢ none
    → Timed cache
    → Timed (put k t cache)
unfolding insert
put-Timed k t [] n h = (n, tt)
put-Timed k t ((j, u) ∷ cache) n h = by_key (str_dec j k) (put-Timed k t cache n h.1)
  where
    by_key :
        (d : Dec (j ≡ k))
        → Timed (put k t cache)
        → Timed (ite d ((k, t) ∷ cache) ((j, u) ∷ put k t cache))
    by_key (yes e) r = (n, h.1)
    by_key (no e) r = (h.0, r)

refresh-Timed :
    (now : ℕ) (key : String) (cache : Cache) (cached fetched : Option TokenRequest)
    → Answers (get now 0 key fetched)
    → Timed cache
    → Timed (refresh now key cache cached fetched).1
refresh-Timed now key cache cached none a h = h
refresh-Timed now key cache cached (some t) a h = put-Timed key t cache a h

get-Timed :
    (now jitter : ℕ) (key : String) (cache : Cache) (cached fetched : Option TokenRequest)
    → Answers (get now 0 key fetched)
    → Timed cache
    → Timed (with_cached now jitter key cache cached fetched).1
get-Timed now jitter key cache none fetched a h = refresh-Timed now key cache none fetched a h
get-Timed now jitter key cache (some t) fetched a h = by_test (requires_refresh now jitter t)
  where
    by_test :
        (b : Bool) → Timed (if b then refresh now key cache (some t) fetched else (some t, cache)).1
    by_test true = refresh-Timed now key cache (some t) fetched a h
    by_test false = h

step-Timed : (op : Operation) (cache : Cache) → Answers op → Timed cache → Timed (step op cache)
unfolding get_service_account_token delete_service_account_token cleanup
step-Timed (get now jitter key none) cache a h = get-Timed now jitter key cache _ none tt h
step-Timed (get now jitter key (some t)) cache a h = get-Timed now jitter key cache _ (some t) a h
step-Timed (delete_pod uid) cache a h = select-Timed _ cache h
step-Timed (clean now) cache a h = select-Timed _ cache h

run-Timed : (ops : List Operation) → All Answers ops → Timed (run ops)
unfolding run
run-Timed [] a = tt
run-Timed (op ∷ ops) a = step-Timed op (run ops) a.0 (run-Timed ops a.1)

lookup-Timed :
    (k : String) (t : TokenRequest) (cache : Cache)
    → Timed cache
    → lookup str_dec k cache ≡ some t
    → t.expiration ≢ none
unfolding lookup
lookup-Timed k t [] h e = absurd (cc)
lookup-Timed k t ((j, u) ∷ cache) h e = by_key (str_dec j k) (lookup-Timed k t cache h.1) e
  where
    by_key :
        (d : Dec (j ≡ k))
        → (lookup str_dec k cache ≡ some t → t.expiration ≢ none)
        → ite d (some u) (lookup str_dec k cache) ≡ some t
        → t.expiration ≢ none
    by_key (yes p) f q = subst (λ o. elim o [ none ↦ Unit | some x ↦ x.expiration ≢ none ]) q h.0
    by_key (no p) f q = f q

-- A token that is not due has not expired.
fresh : (now jitter end lifetime : ℕ) → is_due now jitter end lifetime ≡ false → ltb end now ≡ false
fresh now jitter end lifetime h = ground (arith, h)

not_due :
    (now jitter : ℕ) (t : TokenRequest)
    → t.expiration ≢ none
    → requires_refresh now jitter t ≡ false
    → expired now t ≡ false
not_due now jitter t n h = by_lifetime t.expiration n h
  where
    by_lifetime :
        (o : Option ℕ)
        → o ≢ none
        → (elim o [ none ↦ false | some lifetime ↦ is_due now jitter t.expires_at lifetime ])
          ≡ false
        → expired now t ≡ false
    by_lifetime none m q = absurd (m refl)
    by_lifetime (some lifetime) m q = fresh now jitter t.expires_at lifetime q

fall_back-expired :
    (now : ℕ) (cached : Option TokenRequest) (t : TokenRequest)
    → fall_back now cached ≡ some t
    → expired now t ≡ false
fall_back-expired now none t e = absurd (cc)
fall_back-expired now (some u) t e = by_test (expired now u) refl e
  where
    by_test :
        (b : Bool)
        → expired now u ≡ b
        → (if b then none else some u) ≡ some t
        → expired now t ≡ false
    by_test true p q = absurd (cc)
    by_test false p q = subst (λ o. elim o [ none ↦ Unit | some x ↦ expired now x ≡ false ]) q p

refresh-valid :
    (now : ℕ) (key : String) (cache : Cache) (cached fetched : Option TokenRequest)
    (t : TokenRequest)
    → (refresh now key cache cached fetched).0 ≡ some t
    → (fetched ≡ some t) ⊎ (expired now t ≡ false)
refresh-valid now key cache cached none t e = inr (fall_back-expired now cached t e)
refresh-valid now key cache cached (some u) t e = inl e

get-valid :
    (now jitter : ℕ) (key : String) (cache : Cache) (cached fetched : Option TokenRequest)
    (t : TokenRequest)
    → ((u : TokenRequest) → cached ≡ some u → u.expiration ≢ none)
    → (with_cached now jitter key cache cached fetched).0 ≡ some t
    → (fetched ≡ some t) ⊎ (expired now t ≡ false)
get-valid now jitter key cache none fetched t h e = refresh-valid now key cache none fetched t e
get-valid now jitter key cache (some u) fetched t h e =
    by_test (requires_refresh now jitter u) refl e
  where
    by_test :
        (b : Bool)
        → requires_refresh now jitter u ≡ b
        → (if b then refresh now key cache (some u) fetched else (some u, cache)).0 ≡ some t
        → (fetched ≡ some t) ⊎ (expired now t ≡ false)
    by_test true p q = refresh-valid now key cache (some u) fetched t q
    by_test false p q = inr (
        subst (λ o. elim o [ none ↦ Unit | some x ↦ expired now x ≡ false ]) q
          (not_due now jitter u (h u refl) p))

-- After any operations, in which the server answers every request with a token that has a lifetime, the
-- token that is handed out is the one that was just fetched or has not expired.
pub get_service_account_token-expired :
    (ops : List Operation) (now jitter : ℕ) (key : String) (fetched : Option TokenRequest)
    (t : TokenRequest)
    → All Answers ops
    → (get_service_account_token now jitter key fetched (run ops)).0 ≡ some t
    → (fetched ≡ some t) ⊎ (expired now t ≡ false)
unfolding get_service_account_token
get_service_account_token-expired ops now jitter key fetched t a e =
    get-valid now jitter key (run ops) (lookup str_dec key (run ops)) fetched t
      (λ u p. lookup-Timed key u (run ops) (run-Timed ops a) p) e
