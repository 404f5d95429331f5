-- ===== src/Oauth.antt =====
-- The store of OAuth clients, grants and codes (pkg/server/oauth.go).
-- A grant is one person's consent for one client. `hash_of` is SHA-256 in hexadecimal (hashSecret), `pkce`
-- the S256 challenge of a verifier, and `parse` is net/url's Parse. Random identifiers and secrets, the
-- clock's answer and whether the file could be written come as arguments. `disk` is the file.
pub mod Registration
pub mod Exchange
pub mod Refresh
pub mod Access
pub mod Clients
pub mod Codes
pub mod Scan
pub mod Rotation
pub mod Spent
pub mod Revoked
mod Tests
use native_ops.Base.{
  ℕ, suc, ◌+◌, ◌*◌, ◌-◌, String, codes, Bool, true, false, not, ◌&&◌, ◌||◌, Option, none, some,
  List, [], ◌∷◌, ◌++◌, ltb, leb, ◌==◌, str_eq, if◌then◌else◌, Result, ok, err, length, all,
  trim_space,
}
use native_ops.Base.Dict.{Dict, lookup, insert, erase}
use native_ops.Base.Sort.{sort_asc}

abbrev pub second : ℕ
second = 1000000000

abbrev pub refresh_ttl : ℕ
refresh_ttl = 30 * 24 * 3600 * second

abbrev pub code_ttl : ℕ
code_ttl = 60 * second

abbrev pub max_oauth_clients : ℕ
max_oauth_clients = 500

pub record OauthClient : Type 0 where
  pub id : String
  pub name : List ℕ
  pub redirect_uris : List String
  pub created : ℕ

pub record OauthGrant : Type 0 where
  pub id : String
  pub client_id : String
  pub client_name : List ℕ
  pub username : String
  pub resource : String
  pub created : ℕ
  pub last_used : ℕ
  pub refresh_hash : String
  pub prev_refresh_hash : String
  pub refresh_expires : ℕ

pub record OauthCode : Type 0 where
  pub client_id : String
  pub redirect_uri : String
  pub challenge : String
  pub username : String
  pub resource : String
  pub expires : ℕ

pub record OauthStore : Type 0 where
  pub clients : List OauthClient
  pub grants : List OauthGrant
  pub codes : Dict OauthCode
  pub disk : List OauthClient × List OauthGrant

pub data OauthError : Type 0 where
  invalid_grant bad_name bad_redirects bad_redirect too_many_clients not_saved : OauthError

-- `save`, when the file can be written
unfoldable pub saved : OauthStore → OauthStore
saved s = record s { disk = (s.clients, s.grants) }

unfoldable pub open_oauth_store : List OauthClient × List OauthGrant → OauthStore
open_oauth_store (cs, gs) = record { clients = cs; grants = gs; codes = []; disk = (cs, gs) }

unfoldable pub find_client : String → List OauthClient → Option OauthClient
find_client id [] = none
find_client id (c ∷ cs) = if str_eq c.id id then some c else find_client id cs
