-- ===== src/Boot/Tokens.antt =====
-- The bearer-token path that `main` of obolus/src/main.rs builds, where its variables ask for one.
use obolus.Prelude.{String, Option, none, some, List, [], ◌∷◌, filter, is_some}
use obolus.Prelude.Results.{Result, ok, err, ◌>>=◌, ◌>>◌}
use obolus.Payment.Codec.{Bytes}
use obolus.Access.KeySet.{PublicKeyTokenVerifier, with_keys}
use obolus.Access.KeyFiles.{TokenKeyEntry, parse_token_keys}
use obolus.Boot.{
  World, BootError, key_files_refused, orphaned_token_vars, no_issuer, unreadable_key, keys_refused,
  map_err, env,
}
use obolus.Boot.Sources.{refuse_empty, refuse_both}

abbrev pub single_key_var : String
single_key_var = "OBOLUS_TOKEN_PUBKEY_FILE"

-- The variable that names the keys, and what it names.
abbrev pub KeySource : Type 0
KeySource = String × List TokenKeyEntry

abbrev pub or_no_issuer : (source : String) → Option String → Result BootError String
or_no_issuer source none = err (no_issuer source)
or_no_issuer source (some issuer) = refuse_empty "OBOLUS_TOKEN_ISSUER" issuer >> ok issuer

abbrev pub read_audience : Option String → Result BootError (Option String)
read_audience none = ok none
read_audience (some audience) = refuse_empty "OBOLUS_TOKEN_AUDIENCE" audience >> ok (some audience)

abbrev pub unless_orphaned_vars : List String → Result BootError (Option PublicKeyTokenVerifier)
unless_orphaned_vars [] = ok none
unless_orphaned_vars (v ∷ vs) = err (orphaned_token_vars (v ∷ vs))

module _ (world : World) where
  abbrev pub key_source :
      (keys : Option String) → (single : Option String) → Result BootError (Option KeySource)
  key_source (some raw) single =
      refuse_empty "OBOLUS_TOKEN_KEYS" raw
      >> (refuse_both "OBOLUS_TOKEN_KEYS" single_key_var single
          >> (map_err key_files_refused (parse_token_keys world.key_entries raw) >>= λ entries.
              ok (some ("OBOLUS_TOKEN_KEYS", entries))))
  key_source none (some path) =
      refuse_empty single_key_var path
      >> ok (some (single_key_var, record { kid = none; file = path } ∷ []))
  key_source none none = ok none

  abbrev pub read_pem :
      (source : String) → TokenKeyEntry → Option Bytes → Result BootError (Option String × Bytes)
  read_pem source entry none = err (unreadable_key source entry.file)
  read_pem source entry (some pem) = ok (entry.kid, pem)

  unfoldable pub read_pems :
      (source : String) → List TokenKeyEntry → Result BootError (List (Option String × Bytes))
  read_pems source [] = ok []
  read_pems source (entry ∷ entries) =
      read_pem source entry (world.read_bytes entry.file) >>= λ key.
      read_pems source entries >>= λ keys. ok (key ∷ keys)

  abbrev pub verifier_from : Option KeySource → Result BootError (Option PublicKeyTokenVerifier)
  verifier_from none =
      unless_orphaned_vars
        (filter (λ k. is_some (env world k)) ("OBOLUS_TOKEN_ISSUER" ∷ "OBOLUS_TOKEN_AUDIENCE" ∷ []))
  verifier_from (some (source, entries)) =
      or_no_issuer source (env world "OBOLUS_TOKEN_ISSUER") >>= λ issuer.
      read_audience (env world "OBOLUS_TOKEN_AUDIENCE") >>= λ audience.
      read_pems source entries >>= λ keys.
      map_err (keys_refused source) (with_keys world.jwt keys issuer audience) >>= λ verifier.
      ok (some verifier)

  unfoldable pub token_path : Result BootError (Option PublicKeyTokenVerifier)
  unfolding read_pems
  token_path = key_source (env world "OBOLUS_TOKEN_KEYS") (env world single_key_var) >>= λ source.
      verifier_from source
