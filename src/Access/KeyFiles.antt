-- ===== src/Access/KeyFiles.antt =====
-- `parse_token_keys` of obolus/src/access.rs: the table of key files. The JSON reader is other people's
-- code: a parameter, which gives serde's message where it refuses a text.
use obolus.Prelude.{ℕ, suc, String, Option, List, [], ◌∷◌, is_empty, if◌then◌else◌}
use obolus.Prelude.Results.{Result, ok, err, ◌>>=◌, ◌>>◌}

pub record TokenKeyEntry : Type 0 where
  pub kid : Option String
  pub file : String

-- The refusals of `parse_token_keys`, which are texts there.
pub data KeyFilesError : Type 0 where
  malformed_keys : String → KeyFilesError
  empty_keys : KeyFilesError
  empty_file : (index : ℕ) → KeyFilesError

abbrev pub or_malformed_keys :
    Result String (List TokenKeyEntry) → Result KeyFilesError (List TokenKeyEntry)
or_malformed_keys (ok entries) = ok entries
or_malformed_keys (err message) = err (malformed_keys message)

abbrev pub check_some_keys : List TokenKeyEntry → Result KeyFilesError (Unit {0})
check_some_keys [] = err empty_keys
check_some_keys (_ ∷ _) = ok tt

-- The loop over the entries; `index` counts from 0.
unfoldable pub check_files : (index : ℕ) → List TokenKeyEntry → Result KeyFilesError (Unit {0})
check_files index [] = ok tt
check_files index (entry ∷ entries) =
    let rest = check_files (suc index) entries in
    if is_empty entry.file then err (empty_file index) else rest

unfoldable pub parse_token_keys :
    (from_str : String → Result String (List TokenKeyEntry))
    → String
    → Result KeyFilesError (List TokenKeyEntry)
unfolding check_files
parse_token_keys from_str raw = or_malformed_keys (from_str raw) >>= λ entries.
    check_some_keys entries >> (check_files 0 entries >> ok entries)
