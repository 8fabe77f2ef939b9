-- ===== src/Nomba/Tokens.antt =====
-- The cache of tokens of src/nomba-client/nomba-client.service.ts.
use accountos.Auth.Businesses.{DecryptedCredentials}
use accountos.Nomba.{Client, answered, TokenEntry, get_token, Cache, cached_or_new, find_token}
use accountos.Prelude.{◌<◌, ◌+◌, refl, ◌⊎◌, String, false, ◌==◌, ◌≡◌}
use accountos.World.{Business, err, ok, Result}

-- The token was kept with its margin, or issued to the credentials of the business.
abbrev pub Obtained : Client → Business → TokenEntry → Type 0
Obtained client b t =
    (client.now + 60000 < t.expires_at)
    ⊎ ((c : DecryptedCredentials) × (client.credentials b ≡ ok c)
        × (client.api.issue_token c
            ≡ answered (record { access_token = t.token; expires_at = t.expires_at })))

-- A token that was given is given again while its margin lasts, whatever the API and the credentials
-- answer then; the tokens of the other businesses stay, and a failure leaves the cache.
abbrev pub Reusable : Client → Business → Cache → Result String × Cache → Type 0
Reusable client b cache (err e, cache') = cache' ≡ cache
Reusable client b cache (ok token, cache') =
    (t : TokenEntry) × (t.token ≡ token)
    × Obtained client b t
    × ((again : Client)
        → again.is_mock ≡ false
        → again.now + 60000 < t.expires_at
        → get_token again b cache' ≡ (ok token, cache'))
    × ((other : String)
        → (b.id == other) ≡ false
        → find_token other cache' ≡ find_token other cache)

module _ (client : Client) (b : Business) (cache : Cache) where
  pub at_work :
      client.is_mock ≡ false
      → get_token client b cache ≡ cached_or_new client b (find_token b.id cache) cache
  unfolding get_token
  at_work live = rw live refl
